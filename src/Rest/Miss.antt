-- ===== src/Rest/Miss.antt =====
-- restRouteMiss of src/control-plane/rest.ts: the answer to a request that no method is found for.
use service_plane.Prelude.{
  ◌≡◌, refl, sym, ◌↔◌, ◌⊎◌, inl, inr, Bool, true, false, Option, none, some, List, [], ◌∷◌, arith,
}
use service_plane.Prelude.Tests.{leb, if◌then◌else◌}
use service_plane.Prelude.Lists.{is_nil}
use service_plane.Prelude.Text.{Text, text, In, unique, In-unique}
use service_plane.Shared.Catalog.{
  ServiceHttpMethod, http_delete, http_get, http_patch, http_post, http_put, http_query,
  DiscoveredServiceAbility,
}
use service_plane.Rest.{RestMatch, match_method, rest_matches}

abbrev pub method_text : ServiceHttpMethod → Text
method_text http_delete = text "delete"
method_text http_get = text "get"
method_text http_patch = text "patch"
method_text http_post = text "post"
method_text http_put = text "put"
method_text http_query = text "query"

method_texts_of : Option ServiceHttpMethod → List Text → List Text
method_texts_of none rest = rest
method_texts_of (some method) rest = method_text method ∷ rest

-- The methods of the matches, without those that have none.
unfoldable pub match_methods : List RestMatch → List Text
unfolding method_texts_of
match_methods [] = []
match_methods (m ∷ ms) = method_texts_of (match_method m) (match_methods ms)

-- `s < t` on strings: by code units
unfoldable pub comes_before : Text → Text → Bool
comes_before [] [] = false
comes_before [] (d ∷ t) = true
comes_before (c ∷ s) [] = false
comes_before (c ∷ s) (d ∷ t) =
    let rest = comes_before s t in if leb c d then (if leb d c then rest else true) else false

insert_text : Text → List Text → List Text
insert_text s [] = s ∷ []
insert_text s (t ∷ ts) =
    let later = insert_text s ts in if comes_before t s then t ∷ later else s ∷ t ∷ ts

-- `texts.sort()`
unfoldable pub sort_texts : List Text → List Text
unfolding insert_text
sort_texts [] = []
sort_texts (s ∷ ss) = insert_text s (sort_texts ss)

-- The methods that a path is published under, as the `allow` header has them up to case.
unfoldable pub allowed_methods : List DiscoveredServiceAbility → Text → List Text
allowed_methods abilities pathname =
    sort_texts (unique (match_methods (rest_matches pathname abilities)))

-- The application goes on (or 404), or 405 with the methods that are allowed.
pub data RouteMiss : Type 0 where
  not_found : RouteMiss
  not_allowed : List Text → RouteMiss

unfoldable pub rest_route_miss : List DiscoveredServiceAbility → Text → RouteMiss
rest_route_miss abilities pathname =
    let allowed = allowed_methods abilities pathname in
    if is_nil allowed then not_found else not_allowed allowed

In-insert_text : (s x : Text) (ts : List Text) → In x (insert_text s ts) ↔ ((s ≡ x) ⊎ In x ts)
unfolding insert_text
In-insert_text s x [] = (λ h. h, λ h. h)
In-insert_text s x (t ∷ ts) = ground (arith, In-insert_text s x ts)

In-sort_texts : (x : Text) (ts : List Text) → In x (sort_texts ts) ↔ In x ts
unfolding sort_texts
In-sort_texts x [] = (λ h. h, λ h. h)
In-sort_texts x (t ∷ ts) = ground (arith, In-insert_text t x (sort_texts ts), In-sort_texts x ts)

-- The method is that of one of the matches.
abbrev pub Reaches : Text → List RestMatch → Type 0
Reaches x [] = ⊥
Reaches x (m ∷ ms) =
    ((method : ServiceHttpMethod) × (match_method m ≡ some method) × (method_text method ≡ x))
    ⊎ Reaches x ms

In-method_texts_of :
    (x : Text) (found : Option ServiceHttpMethod) (rest : List Text)
    → In x (method_texts_of found rest) ↔ (
        ((method : ServiceHttpMethod) × (found ≡ some method) × (method_text method ≡ x))
        ⊎ In x rest)
unfolding method_texts_of
In-method_texts_of x none rest =
    (λ h. inr h, λ h. elim h [ inl (m, e, same) ↦ absurd (ground arith) | inr r ↦ r ])
In-method_texts_of x (some method) rest = (
  λ h. elim h [ inl e ↦ inl (method, refl, e) | inr r ↦ inr r ],
  λ h. elim h [
    | inl (m, e, same) ↦ let known : m ≡ method = ground arith in inl (rw known at same)
    | inr r ↦ inr r
  ],
)

In-match_methods : (x : Text) (ms : List RestMatch) → In x (match_methods ms) ↔ Reaches x ms
unfolding match_methods
In-match_methods x [] = (λ h. h, λ h. h)
In-match_methods x (m ∷ ms) =
    let here = In-method_texts_of x (match_method m) (match_methods ms) in
    let later = In-match_methods x ms in
    (
      λ h. elim (here.0 h) [ inl found ↦ inl found | inr r ↦ inr (later.0 r) ],
      λ h. here.1 (elim h [ inl found ↦ inl found | inr r ↦ inr (later.1 r) ]),
    )

-- Where the answer is that the method is not allowed, the methods that it allows are exactly those of
-- the published matches of the path.
pub rest_route_miss-allowed :
    (abilities : List DiscoveredServiceAbility) (pathname : Text) (allowed : List Text) (x : Text)
    → rest_route_miss abilities pathname ≡ not_allowed allowed
    → In x allowed ↔ Reaches x (rest_matches pathname abilities)
unfolding rest_route_miss allowed_methods
rest_route_miss-allowed abilities pathname allowed x h =
    let methods = match_methods (rest_matches pathname abilities) in
    let same : sort_texts (unique methods) ≡ allowed = ground arith in
    let sorted = In-sort_texts x (unique methods) in
    let once = In-unique x methods in
    let reached = In-match_methods x (rest_matches pathname abilities) in
    rw (sym same) (λ k. reached.0 (once.0 (sorted.0 k)), λ k. sorted.1 (once.1 (reached.1 k)))
