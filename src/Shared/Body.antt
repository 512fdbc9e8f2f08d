-- ===== src/Shared/Body.antt =====
-- src/shared/request-body.ts: the bytes of a request, up to a bound where there is one.
use service_plane.Prelude.{
  ℕ, ◌+◌, ◌≤◌, ◌≡◌, ◌↔◌, Bool, true, false, ◌&&◌, not, Option, none, some, List, [], ◌∷◌, ◌++◌,
  arith, inl, inr,
}
use mathlib.Core.List.{append_assoc, append-nil}
use service_plane.Prelude.Tests.{ltb, if◌then◌else◌}
use service_plane.Prelude.Lists.{length, length-append}
use service_plane.Prelude.Number.{JsNumber, is_safe_integer, is_finite, exceeds, floor_of}
use service_plane.Shared.Message.{bad_max_request_body, request_too_large}
use service_plane.Shared.Errors.{auth_error}
use service_plane.Shared.Result.{Result-cases, Result, ok, err, ◌>>◌, ◌>>=◌, require}
use service_plane.Rest.Body.{joined_chunks}

-- `totalBytes > maxBodyBytes`, where there is a maximum
abbrev pub is_over_limit : Option ℕ → ℕ → Bool
is_over_limit none bytes = false
is_over_limit (some max) bytes = ltb max bytes

-- The loop over the reader, with the bytes so far.
unfoldable pub read_up_to : Option ℕ → ℕ → List ℕ → List (List ℕ) → Result (List ℕ)
read_up_to limit bytes held [] = ok held
read_up_to limit bytes held (chunk ∷ chunks) =
    let rest = read_up_to limit (bytes + length chunk) (held ++ chunk) chunks in
    if is_over_limit limit (bytes + length chunk)
    then err (auth_error request_too_large 413)
    else rest

-- `content-length`, of the number that its text is
unfoldable pub declares_too_much : Option JsNumber → ℕ → Bool
declares_too_much none max = false
declares_too_much (some declared) max = is_finite declared && exceeds declared max

-- The checks of `maxBodyBytes`: the maximum, where there is one.
unfoldable pub body_limit : Option JsNumber → Option JsNumber → Result (Option ℕ)
unfolding declares_too_much
body_limit none declared = ok none
body_limit (some max) declared = do
  require (is_safe_integer max && exceeds max 0) (auth_error bad_max_request_body 500)
  require (not (declares_too_much declared (floor_of max))) (auth_error request_too_large 413)
  ok (some (floor_of max))

read_request_body : Option ℕ → Option (List (List ℕ)) → Result (List ℕ)
read_request_body limit none = ok []
read_request_body limit (some chunks) = read_up_to limit 0 [] chunks

-- boundedRequestBodyBytes(request, maxBodyBytes, options), of the declared length and the chunks of the
-- body, if the request has one
unfoldable pub bounded_request_body_bytes :
    Option JsNumber → Option JsNumber → Option (List (List ℕ)) → Result (List ℕ)
unfolding body_limit read_request_body
bounded_request_body_bytes max declared body = do
  limit ← body_limit max declared
  read_request_body limit body

read_up_to_iff :
    (max bytes : ℕ) (held : List ℕ) (chunks : List (List ℕ)) (body : List ℕ)
    → bytes ≤ max
    → (read_up_to (some max) bytes held chunks ≡ ok body)
      ↔ ((bytes + length (joined_chunks chunks) ≤ max) × (body ≡ held ++ joined_chunks chunks))
unfolding read_up_to
read_up_to_iff max bytes held [] body h = ground (arith, append-nil held)
read_up_to_iff max bytes held (chunk ∷ chunks) body h = ground (
  arith,
  length-append chunk (joined_chunks chunks),
  append_assoc held chunk (joined_chunks chunks),
  read_up_to_iff max (bytes + length chunk) (held ++ chunk) chunks body,
)

-- Under a maximum, a body is read exactly when the maximum is a positive safe integer, and neither the
-- declared nor the actual length is over it; what is read is all of its chunks in order.
pub bounded_request_body_bytes_iff :
    (max : JsNumber) (declared : Option JsNumber) (chunks : List (List ℕ)) (body : List ℕ)
    → (bounded_request_body_bytes (some max) declared (some chunks) ≡ ok body) ↔ (
        (is_safe_integer max ≡ true)
        × (exceeds max 0 ≡ true)
        × (declares_too_much declared (floor_of max) ≡ false)
        × (length (joined_chunks chunks) ≤ floor_of max)
        × (body ≡ joined_chunks chunks))
unfolding bounded_request_body_bytes
bounded_request_body_bytes_iff max declared chunks body =
    ground (arith, read_up_to_iff (floor_of max) 0 [] chunks body)

read_up_to-joined :
    (limit : Option ℕ) (bytes : ℕ) (held : List ℕ) (chunks : List (List ℕ)) (body : List ℕ)
    → read_up_to limit bytes held chunks ≡ ok body
    → body ≡ held ++ joined_chunks chunks
unfolding read_up_to
read_up_to-joined limit bytes held [] body h = ground (arith, append-nil held)
read_up_to-joined limit bytes held (chunk ∷ chunks) body h = ground (
  arith,
  append_assoc held chunk (joined_chunks chunks),
  read_up_to-joined limit (bytes + length chunk) (held ++ chunk) chunks body,
)

abbrev pub bytes_of_body : Option (List (List ℕ)) → List ℕ
bytes_of_body none = []
bytes_of_body (some chunks) = joined_chunks chunks

-- With a maximum or without, what is read is the whole body.
pub bounded_request_body_bytes-bytes :
    (max declared : Option JsNumber) (body : Option (List (List ℕ))) (bytes : List ℕ)
    → bounded_request_body_bytes max declared body ≡ ok bytes
    → bytes ≡ bytes_of_body body
unfolding bounded_request_body_bytes
bounded_request_body_bytes-bytes max declared none bytes h =
    elim (Result-cases (body_limit max declared)) [
      | inl (limit, e) ↦ ground arith
      | inr (error, e) ↦ absurd (ground arith)
    ]
bounded_request_body_bytes-bytes max declared (some chunks) bytes h =
    elim (Result-cases (body_limit max declared)) [
      | inl (limit, e) ↦ ground (arith, read_up_to-joined limit 0 [] chunks bytes)
      | inr (error, e) ↦ absurd (ground arith)
    ]
