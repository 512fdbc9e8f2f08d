-- ===== src/Shared/Assertion/Carried.antt =====
-- extractServicePlaneJwkAssertion of src/shared/jwk-auth.ts, of what servicePlaneJwkAuthorization makes.
use service_plane.Prelude.{ℕ, ◌≡◌, refl, ap, ◌∙◌, Bool, false, some, [], ◌∷◌, ◌++◌}
use service_plane.Prelude.Lists.{All, drop_while, drop_while_end}
use service_plane.Prelude.Text.{Text, text, ◌==◌, is_space, trim, drop_while_end_of_none}
use service_plane.Shared.Result.{ok}
use service_plane.Shared.Assertion.{
  CallerRequest, trimmed, split_spaces, begins_with_space, add_to_first, two_parts,
  authorization_parts, extract_assertion, jwk_authorization,
}

abbrev pub IsWord : Text → Type 0
IsWord = All (λ c. is_space c ≡ false)

split_spaces_cons :
    (c : ℕ) (s : Text) → is_space c ≡ false → split_spaces (c ∷ s) ≡ add_to_first c (split_spaces s)
unfolding split_spaces
split_spaces_cons c s h = rw h refl

split_spaces-word : (c : ℕ) (s : Text) → IsWord (c ∷ s) → split_spaces (c ∷ s) ≡ (c ∷ s) ∷ []
unfolding split_spaces add_to_first
split_spaces-word c [] (h, _) = rw h refl
split_spaces-word c (d ∷ s) (h, hs) =
    split_spaces_cons c (d ∷ s) h ∙ rw (split_spaces-word d s hs) refl

split_spaces-space :
    (c : ℕ) (s : Text) → IsWord (c ∷ s) → split_spaces (32 ∷ c ∷ s) ≡ [] ∷ split_spaces (c ∷ s)
unfolding split_spaces begins_with_space is_space
split_spaces-space c s (h, _) = rw h refl

pub split_spaces-words :
    (w : Text) (c : ℕ) (s : Text)
    → IsWord w
    → IsWord (c ∷ s)
    → split_spaces (w ++ 32 ∷ c ∷ s) ≡ w ∷ (c ∷ s) ∷ []
unfolding add_to_first
split_spaces-words [] c s hw hs = split_spaces-space c s hs ∙ rw (split_spaces-word c s hs) refl
split_spaces-words (d ∷ w) c s (h, hw) hs =
    split_spaces_cons d (w ++ 32 ∷ c ∷ s) h ∙ rw (split_spaces-words w c s hw hs) refl

drop_while_end-append :
    (p : ℕ → Bool) (xs : Text) (y : ℕ) (ys : Text)
    → drop_while_end p (y ∷ ys) ≡ y ∷ ys
    → drop_while_end p (xs ++ y ∷ ys) ≡ xs ++ y ∷ ys
unfolding drop_while_end
drop_while_end-append p [] y ys h = h
drop_while_end-append p (x ∷ []) y ys h = rw h refl
drop_while_end-append p (x ∷ z ∷ xs) y ys h = rw (drop_while_end-append p (z ∷ xs) y ys h) refl

pub trim-words :
    (d : ℕ) (w : Text) (c : ℕ) (s : Text)
    → IsWord (d ∷ w)
    → IsWord (c ∷ s)
    → trim (d ∷ w ++ 32 ∷ c ∷ s) ≡ d ∷ w ++ 32 ∷ c ∷ s
unfolding trim drop_while
trim-words d w c s (h, hw) hs = rw h (
    drop_while_end-append is_space (d ∷ w) 32 (c ∷ s)
      (drop_while_end-append is_space (32 ∷ []) c s (drop_while_end_of_none is_space (c ∷ s) hs)))

scheme-IsWord : IsWord (text "ServicePlane-JWK")
unfolding is_space
scheme-IsWord = (
  refl,
  (
    refl,
    (
      refl,
      (
        refl,
        (
          refl,
          (
            refl,
            (refl, (refl, (refl, (refl, (refl, (refl, (refl, (refl, (refl, (refl, tt)))))))))),
          ),
        ),
      ),
    ),
  ),
)

trimmed-authorization :
    (c : ℕ) (s : Text)
    → IsWord (c ∷ s)
    → trimmed (some (jwk_authorization (c ∷ s))) ≡ some (jwk_authorization (c ∷ s))
trimmed-authorization c s h = rw (trim-words b'S' (text "ervicePlane-JWK") c s scheme-IsWord h) refl

-- The assertion of an authorization header is the one that was put into it, if it has no space.
pub extract_assertion-authorization :
    (request : CallerRequest) (c : ℕ) (s : Text)
    → IsWord (c ∷ s)
    → request.header (text "authorization") ≡ some (jwk_authorization (c ∷ s))
    → extract_assertion request ≡ ok (c ∷ s)
unfolding extract_assertion authorization_parts two_parts ◌==◌
extract_assertion-authorization request c s h e =
    rw (e, trimmed-authorization c s h)
      (ap two_parts (split_spaces-words (text "ServicePlane-JWK") c s scheme-IsWord h))
