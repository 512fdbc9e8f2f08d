-- ===== src/Shared/Hmac/Canonical.antt =====
-- servicePlaneHmacCanonicalString of src/shared/hmac-auth.ts: what is signed tells the request.
use service_plane.Prelude.{◌≡◌, ◌≢◌, refl, ap, List, [], ◌∷◌, ◌++◌, map, arith}
use service_plane.Prelude.Lists.{All}
use service_plane.Prelude.Text.{Text, text}
use service_plane.Shared.Assertion.{upper_unit}
use service_plane.Shared.Hmac.{HmacRequestParts, joined_lines, or_empty, hmac_canonical_string}

-- A text without a line feed: headers, methods, paths and base64url have none.
abbrev pub IsLine : Text → Type 0
IsLine = All (λ c. c ≢ 10)

line_unique :
    (xs ys r q : Text) → IsLine xs → IsLine ys → xs ++ 10 ∷ r ≡ ys ++ 10 ∷ q → (xs ≡ ys) × (r ≡ q)
line_unique [] [] r q hx hy h = (refl, ground arith)
line_unique [] (y ∷ ys) r q hx (n, hy) h = absurd (n (ground arith))
line_unique (x ∷ xs) [] r q (n, hx) hy h = absurd (n (ground arith))
line_unique (x ∷ xs) (y ∷ ys) r q (n, hx) (m, hy) h =
    ground (arith, line_unique xs ys r q hx hy (ground arith))

-- The parts that a canonical string has, with the method in upper case.
abbrev pub shown_lines : HmacRequestParts → List Text
shown_lines parts =
    map upper_unit parts.method
    ∷ parts.path_with_query
    ∷ parts.body_hash
    ∷ parts.timestamp
    ∷ parts.client_id
    ∷ or_empty parts.request_id
    ∷ []

abbrev SameLength : List Text → List Text → Type 0
SameLength [] [] = Unit
SameLength (x ∷ xs) (y ∷ ys) = SameLength xs ys
SameLength _ _ = ⊥

joined_lines_unique :
    (x y : Text) (xs ys : List Text)
    → All IsLine (x ∷ xs)
    → All IsLine (y ∷ ys)
    → SameLength xs ys
    → joined_lines (x ∷ xs) ≡ joined_lines (y ∷ ys)
    → x ∷ xs ≡ y ∷ ys
joined_lines_unique x y [] [] hx hy n h = ap (λ z. z ∷ []) h
joined_lines_unique x y (u ∷ xs) (v ∷ ys) (hx, hxs) (hy, hys) n h =
    let e = line_unique x y (joined_lines (u ∷ xs)) (joined_lines (v ∷ ys)) hx hy h in
    ground (arith, e, joined_lines_unique u v xs ys hxs hys n e.1)
joined_lines_unique x y [] (v ∷ ys) hx hy n h = absurd n
joined_lines_unique x y (u ∷ xs) [] hx hy n h = absurd n

same_tail : (xs r q : Text) → xs ++ r ≡ xs ++ q → r ≡ q
same_tail [] r q h = h
same_tail (x ∷ xs) r q h = same_tail xs r q (ground arith)

-- Two requests whose parts have no line feed and whose canonical strings are equal agree in method (but for
-- case), path, body, timestamp, client and request id: one signature does not stand for two requests.
pub hmac_canonical_string_unique :
    (p q : HmacRequestParts)
    → All IsLine (shown_lines p)
    → All IsLine (shown_lines q)
    → hmac_canonical_string p ≡ hmac_canonical_string q
    → shown_lines p ≡ shown_lines q
unfolding hmac_canonical_string
hmac_canonical_string_unique p q hp hq h =
    joined_lines_unique (map upper_unit p.method) (map upper_unit q.method)
      (p.path_with_query ∷ p.body_hash ∷ p.timestamp ∷ p.client_id ∷ or_empty p.request_id ∷ [])
      (q.path_with_query ∷ q.body_hash ∷ q.timestamp ∷ q.client_id ∷ or_empty q.request_id ∷ []) hp
      hq tt
      (same_tail (text "service-plane-hmac-v1\n") (joined_lines (shown_lines p))
        (joined_lines (shown_lines q)) h)
