-- ===== src/Shared/Hmac/Carried.antt =====
-- extractServicePlaneHmacSignature of src/shared/hmac-auth.ts, of what servicePlaneHmacAuthorization makes.
use service_plane.Prelude.{ℕ, ◌≡◌, refl, ap, some, ◌∷◌}
use service_plane.Prelude.Text.{Text, text, ◌==◌, is_space}
use service_plane.Shared.Result.{ok}
use service_plane.Shared.Assertion.{CallerRequest, trimmed}
use service_plane.Shared.Assertion.Carried.{IsWord, split_spaces-words, trim-words}
use service_plane.Shared.Hmac.{
  hmac_parts, hmac_authorization, hmac_authorization_header, extract_hmac_signature,
}

hmac_scheme-IsWord : IsWord (text "ServicePlane-HMAC")
unfolding is_space
hmac_scheme-IsWord = (
  refl,
  (
    refl,
    (
      refl,
      (
        refl,
        (
          refl,
          (
            refl,
            (
              refl,
              (refl, (refl, (refl, (refl, (refl, (refl, (refl, (refl, (refl, (refl, tt)))))))))),
            ),
          ),
        ),
      ),
    ),
  ),
)

trimmed-hmac_authorization :
    (c : ℕ) (s : Text)
    → IsWord (c ∷ s)
    → trimmed (some (hmac_authorization_header (c ∷ s))) ≡ some (hmac_authorization_header (c ∷ s))
trimmed-hmac_authorization c s h =
    rw (trim-words b'S' (text "ervicePlane-HMAC") c s hmac_scheme-IsWord h) refl

-- The signature of an authorization header is the one that was put into it, if it has no space.
pub extract_hmac_signature-authorization :
    (request : CallerRequest) (c : ℕ) (s : Text)
    → IsWord (c ∷ s)
    → request.header (text "authorization") ≡ some (hmac_authorization_header (c ∷ s))
    → extract_hmac_signature request ≡ ok (c ∷ s)
unfolding extract_hmac_signature hmac_authorization hmac_parts ◌==◌
extract_hmac_signature-authorization request c s h e =
    rw (e, trimmed-hmac_authorization c s h)
      (ap hmac_parts (split_spaces-words (text "ServicePlane-HMAC") c s hmac_scheme-IsWord h))
