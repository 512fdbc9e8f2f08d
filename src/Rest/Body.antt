-- ===== src/Rest/Body.antt =====
-- readBoundedBody of src/control-plane/rest.ts: the bytes of a request's body, read chunk by chunk up to
-- a bound. The text that TextDecoder makes of them is left out.
use service_plane.Prelude.{
  ℕ, ◌+◌, ◌≤◌, ◌≡◌, refl, ◌↔◌, Bool, false, not, Option, none, some, List, [], ◌∷◌, ◌++◌, arith,
}
use mathlib.Core.List.{append_assoc, append-nil}
use service_plane.Prelude.Tests.{ltb, if◌then◌else◌}
use service_plane.Prelude.Lists.{length, length-append}
use service_plane.Prelude.Number.{JsNumber, exceeds}
use service_plane.Shared.Message.{body_too_large}
use service_plane.Shared.Errors.{auth_error}
use service_plane.Shared.Result.{Result, ok, err, ◌>>◌, require}

-- The bytes of the chunks, one after the other.
abbrev pub joined_chunks : List (List ℕ) → List ℕ
joined_chunks [] = []
joined_chunks (chunk ∷ chunks) = chunk ++ joined_chunks chunks

module _ (max_bytes : ℕ) where
  -- The loop over the reader: how many bytes there are so far, and what they are.
  unfoldable pub read_chunks : ℕ → List ℕ → List (List ℕ) → Result (List ℕ)
  read_chunks bytes held [] = ok held
  read_chunks bytes held (chunk ∷ chunks) =
      let rest = read_chunks (bytes + length chunk) (held ++ chunk) chunks in
      if ltb max_bytes (bytes + length chunk) then err (auth_error body_too_large 413) else rest

  -- `declared && Number(declared) > maxBytes`, of the number that the header's text is
  unfoldable pub is_over : Option JsNumber → Bool
  is_over none = false
  is_over (some declared) = exceeds declared max_bytes

  -- The length that a request declares, if it declares one, is within the bound.
  abbrev pub IsDeclaredWithin : Option JsNumber → Type 0
  IsDeclaredWithin none = Unit
  IsDeclaredWithin (some declared) = exceeds declared max_bytes ≡ false

  is_over-IsDeclaredWithin :
      (declared : Option JsNumber) → (is_over declared ≡ false) ↔ IsDeclaredWithin declared
  unfolding is_over
  is_over-IsDeclaredWithin none = (λ _. tt, λ _. refl)
  is_over-IsDeclaredWithin (some declared) = (λ h. h, λ h. h)

  read_body : Option (List (List ℕ)) → Result (List ℕ)
  read_body none = ok []
  read_body (some chunks) = read_chunks 0 [] chunks

  -- readBoundedBody(request, maxBytes), of the declared length and the chunks of the body, if it has one
  unfoldable pub read_bounded_body : Option JsNumber → Option (List (List ℕ)) → Result (List ℕ)
  unfolding read_body
  read_bounded_body declared body =
      require (not (is_over declared)) (auth_error body_too_large 413) >> read_body body

  read_chunks_iff :
      (bytes : ℕ) (held : List ℕ) (chunks : List (List ℕ)) (body : List ℕ)
      → bytes ≤ max_bytes
      → (read_chunks bytes held chunks ≡ ok body) ↔ (
          (bytes + length (joined_chunks chunks) ≤ max_bytes)
          × (body ≡ held ++ joined_chunks chunks))
  unfolding read_chunks
  read_chunks_iff bytes held [] body h = ground (arith, append-nil held)
  read_chunks_iff bytes held (chunk ∷ chunks) body h = ground (
    arith,
    length-append chunk (joined_chunks chunks),
    append_assoc held chunk (joined_chunks chunks),
    read_chunks_iff (bytes + length chunk) (held ++ chunk) chunks body,
  )

  -- A body is read exactly when the length that it declares, if it declares one, does not exceed the
  -- bound and neither does its actual length, and then it is all of its chunks in order.
  pub read_bounded_body_iff :
      (declared : Option JsNumber) (chunks : List (List ℕ)) (body : List ℕ)
      → (read_bounded_body declared (some chunks) ≡ ok body) ↔ (
          IsDeclaredWithin declared
          × (length (joined_chunks chunks) ≤ max_bytes)
          × (body ≡ joined_chunks chunks))
  unfolding read_bounded_body
  read_bounded_body_iff declared chunks body =
      ground (arith, is_over-IsDeclaredWithin declared, read_chunks_iff 0 [] chunks body)
