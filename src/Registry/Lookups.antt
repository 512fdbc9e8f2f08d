-- ===== src/Registry/Lookups.antt =====
-- Literals, maps and documents that are looked up.
use service_plane.Prelude.{
  ◌≡◌, refl, sym, inl, inr, true, Option, none, some, List, [], ◌∷◌, map, arith,
}
use service_plane.Prelude.Tests.{Bool-cases, Option-cases}
use service_plane.Prelude.Lists.{All, Among}
use service_plane.Prelude.Text.{Text, text, ◌==◌, eq_iff}
use service_plane.Prelude.Value.{Value, undefined, null, bool, num, str, arr, obj, prop}
use service_plane.Issuer.{get, put}
use service_plane.Registry.{is_literal}
use service_plane.Registry.Discover.{with_entry, DiscoveredDocument, document_with_id}

pub is_literal-eq : (s : Text) (v : Value) → is_literal s v ≡ true → v ≡ str s
unfolding is_literal
is_literal-eq s (str t) h = ground (arith, eq_iff t s)
is_literal-eq s undefined h = absurd (ground arith)
is_literal-eq s null h = absurd (ground arith)
is_literal-eq s (bool b) h = absurd (ground arith)
is_literal-eq s (num x) h = absurd (ground arith)
is_literal-eq s (arr vs) h = absurd (ground arith)
is_literal-eq s (obj fs) h = absurd (ground arith)

-- What holds of the values of a map, of the one that `get` finds, and after `put`.
module _ {V : Type 0} (P : V → Type 0) where
  pub get-All :
      (k : Text) (m : List (Text × V)) (v : V)
      → All (λ (e : Text × V). P e.1) m
      → get k m ≡ some v
      → P v
  unfolding get
  get-All k [] v hs e = absurd (ground arith)
  get-All k ((j, w) ∷ m) v (h, hs) e = elim (Bool-cases (j == k)) [
    | inl found ↦ let same : w ≡ v = ground arith in rw (sym same) h
    | inr other ↦ get-All k m v hs (ground arith)
  ]

  pub put-All :
      (k : Text) (v : V) (m : List (Text × V))
      → P v
      → All (λ (e : Text × V). P e.1) m
      → All (λ (e : Text × V). P e.1) (put k v m)
  unfolding put
  put-All k v [] h hs = (h, tt)
  put-All k v ((j, w) ∷ m) h (h', hs) = elim (Bool-cases (j == k)) [
    | inl found ↦ rw found (h, hs)
    | inr other ↦ rw other (h', put-All k v m h hs)
  ]

pub with_entry-All :
    (P : Value → Type 0) (e : Option DiscoveredDocument) (entries : List DiscoveredDocument)
    → ((entry : DiscoveredDocument) → e ≡ some entry → P entry.document)
    → All P (map (λ (entry : DiscoveredDocument). entry.document) entries)
    → All P (map (λ (entry : DiscoveredDocument). entry.document) (with_entry e entries))
with_entry-All P none entries h hs = hs
with_entry-All P (some entry) entries h hs = (h entry refl, hs)

pub document_with_id-lem :
    (id : Text) (documents : List Value) (d : Value)
    → document_with_id id documents ≡ some d
    → (prop (text "id") d ≡ str id) × Among d documents
unfolding document_with_id
document_with_id-lem id [] d h = absurd (ground arith)
document_with_id-lem id (document ∷ documents) d h =
    elim (Option-cases (document_with_id id documents)) [
      | inr (other, later) ↦
          let found : document_with_id id documents ≡ some d = ground arith in
          let (named, among) = document_with_id-lem id documents d found in (named, inr among)
      | inl absent ↦ elim (Bool-cases (is_literal id (prop (text "id") document))) [
        | inr unnamed ↦ absurd (ground arith)
        | inl named ↦
            let same : document ≡ d = ground arith in
            rw (sym same) (is_literal-eq id (prop (text "id") document) named, inl refl)
      ]
    ]
