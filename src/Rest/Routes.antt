-- ===== src/Rest/Routes.antt =====
-- What a match says of its path: the template, filled with the parameters, spells the request's path.
use service_plane.Prelude.{
  ℕ, ◌≡◌, refl, ap, ◌∙◌, ◌⊎◌, inl, inr, Bool, false, Option, none, some, List, [], ◌∷◌, map, arith,
}
use service_plane.Prelude.Tests.{Option-cases}
use service_plane.Prelude.Lists.{All}
use service_plane.Prelude.Text.{Text, ◌==◌, eq_iff, eq_refl}
use service_plane.Shared.Paths.{template_variable}
use service_plane.Issuer.{get, put}
use service_plane.Issuer.Grants.{get-put}
use service_plane.Rest.{Params, normalized_segments, match_segment, match_segments, match_rest_path}
use service_plane.Rest.Uri.{decode_path_segment}

abbrev value_of : Params → Text → Option Text → Option Text
value_of params t none = some t
value_of params t (some variable) = get variable params

-- A segment of a template with the value of its variable in place of the variable.
abbrev pub fill_segment : Params → Text → Option Text
fill_segment params t = value_of params t (template_variable t)

abbrev names : Text → Option Text → Bool
names v none = false
names v (some w) = w == v

-- No segment names the variable.
abbrev pub Fresh : Text → List Text → Type 0
Fresh v = All (λ t. names v (template_variable t) ≡ false)

abbrev FreshOption : Option Text → List Text → Type 0
FreshOption none ts = Unit
FreshOption (some v) ts = Fresh v ts

-- No two segments name the same variable.
abbrev pub IsTemplate : List Text → Type 0
IsTemplate [] = Unit
IsTemplate (t ∷ ts) = FreshOption (template_variable t) ts × IsTemplate ts

-- What one segment adds: a variable's value, or nothing.
match_segment-cases :
    (t : Text) (decoded : Option Text) (found more : Params × ℕ)
    → match_segment t decoded found ≡ some more
    → ((v d : Text) × (template_variable t ≡ some v)
        × (decoded ≡ some d)
        × (more.0 ≡ put v d found.0))
      ⊎ (template_variable t ≡ none) × (decoded ≡ some t) × (more.0 ≡ found.0)
unfolding match_segment
match_segment-cases t none found more h = absurd (ground arith)
match_segment-cases t (some d) found more h = elim (Option-cases (template_variable t)) [
  | inl plain ↦ inr (plain, ground (arith, eq_iff t d), ground arith)
  | inr (v, variable) ↦ inl (v, d, variable, refl, ground arith)
]

match_segments-cons :
    (found last : Params × ℕ) (t r : Text) (ts rs : List Text)
    → match_segments found (t ∷ ts) (r ∷ rs) ≡ some last
    → (more : Params × ℕ) × (match_segment t (decode_path_segment r) found ≡ some more)
      × (match_segments more ts rs ≡ some last)
unfolding match_segments
match_segments-cons found last t r ts rs h =
    elim (Option-cases (match_segment t (decode_path_segment r) found)) [
      | inl none_added ↦ absurd (ground arith)
      | inr (more, added) ↦ (more, added, ground arith)
    ]

-- The value of a variable stays as it is while no segment names it.
get-match_segments :
    (v : Text) (found last : Params × ℕ) (ts rs : List Text)
    → Fresh v ts
    → match_segments found ts rs ≡ some last
    → get v last.0 ≡ get v found.0
unfolding match_segments
get-match_segments v found last [] [] fresh h =
    let same : last ≡ found = ground arith in ap (λ (f : Params × ℕ). get v f.0) same
get-match_segments v found last [] (r ∷ rs) fresh h = absurd (ground arith)
get-match_segments v found last (t ∷ ts) [] fresh h = absurd (ground arith)
get-match_segments v found last (t ∷ ts) (r ∷ rs) (other, fresh) h =
    let (more, added, rest) = match_segments-cons found last t r ts rs h in
    let later = get-match_segments v more last ts rs fresh rest in
    elim (match_segment-cases t (decode_path_segment r) found more added) [
      | inl (w, d, variable, decoded, e) ↦
          later ∙ ap (get v) e ∙ rw (get-put w v d found.0, (rw variable at other))
      | inr (plain, decoded, e) ↦ later ∙ ap (get v) e
    ]

match_segments-fill :
    (found last : Params × ℕ) (ts rs : List Text)
    → IsTemplate ts
    → match_segments found ts rs ≡ some last
    → map decode_path_segment rs ≡ map (fill_segment last.0) ts
unfolding match_segments
match_segments-fill found last [] [] w h = refl
match_segments-fill found last [] (r ∷ rs) w h = absurd (ground arith)
match_segments-fill found last (t ∷ ts) [] w h = absurd (ground arith)
match_segments-fill found last (t ∷ ts) (r ∷ rs) (fresh, w) h =
    let (more, added, rest) = match_segments-cons found last t r ts rs h in
    let later = match_segments-fill more last ts rs w rest in
    elim (match_segment-cases t (decode_path_segment r) found more added) [
      | inl (v, d, variable, decoded, e) ↦
          let kept = get-match_segments v more last ts rs (rw variable at fresh) rest in
          let value = rw (get-put v v d found.0, eq_refl v) at (kept ∙ ap (get v) e) in
          rw (decoded, variable, value, later)
      | inr (plain, decoded, e) ↦ rw (decoded, plain, later)
    ]

-- Where no two variables of the template have one name, a path that matches decodes, segment by
-- segment, to the template with the parameters in place of its variables.
pub match_rest_path-fill :
    (template pathname : Text) (params : Params) (static : ℕ)
    → IsTemplate (normalized_segments template)
    → match_rest_path template pathname ≡ some (params, static)
    → map decode_path_segment (normalized_segments pathname)
      ≡ map (fill_segment params) (normalized_segments template)
unfolding match_rest_path
match_rest_path-fill template pathname params static w h =
    match_segments-fill ([], 0) (params, static) (normalized_segments template)
      (normalized_segments pathname) w h
