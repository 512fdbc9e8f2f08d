-- ===== src/Service/Definition/Routed.antt =====
-- The path of an accepted ability stays on the origin of its service.
use service_plane.Prelude.{ℕ, ◌≡◌, refl, Bool, true, false, [], ◌∷◌, arith}
use service_plane.Prelude.Tests.{nat_eq}
use service_plane.Prelude.Lists.{is_nil, any, drop_while_end}
use service_plane.Prelude.Text.{Text, text, trim}
use service_plane.Shared.Result.{ok}
use service_plane.Shared.Paths.{
  starts_with_slash, starts_with_two_slashes, has_strippable_path_char, is_origin_relative_path,
  without_end_slashes,
}
use service_plane.Service.Declared.{normalize_declared_path}

any-drop_while_end :
    (p q : ℕ → Bool) (xs : Text) → any q xs ≡ false → any q (drop_while_end p xs) ≡ false
unfolding any drop_while_end
any-drop_while_end p q [] h = ground arith
any-drop_while_end p q (x ∷ xs) h = ground (arith, any-drop_while_end p q xs)

any-without_end :
    (q : ℕ → Bool) (s : Text) → any q s ≡ false → any q (without_end_slashes s) ≡ false
unfolding without_end_slashes
any-without_end q s h = any-drop_while_end (λ c. nat_eq c b'/') q s h

strippable-without_end :
    (s : Text)
    → has_strippable_path_char s ≡ false
    → has_strippable_path_char (without_end_slashes s) ≡ false
unfolding has_strippable_path_char
strippable-without_end s h = any-without_end _ s h

starts-without_end :
    (s : Text)
    → starts_with_slash s ≡ true
    → is_nil (without_end_slashes s) ≡ false
    → starts_with_slash (without_end_slashes s) ≡ true
unfolding starts_with_slash without_end_slashes drop_while_end
starts-without_end [] h k = ground arith
starts-without_end (c ∷ s) h k = ground arith

two_slashes-without_end :
    (s : Text)
    → starts_with_two_slashes s ≡ false
    → starts_with_two_slashes (without_end_slashes s) ≡ false
unfolding starts_with_two_slashes without_end_slashes drop_while_end
two_slashes-without_end [] h = ground arith
two_slashes-without_end (c ∷ []) h = ground arith
two_slashes-without_end (c ∷ d ∷ s) h = ground arith

root-IsRelative : is_origin_relative_path (text "/") ≡ true
unfolding is_origin_relative_path has_strippable_path_char starts_with_slash starts_with_two_slashes
    any
root-IsRelative = refl

without_end-IsRelative :
    (s : Text)
    → is_origin_relative_path s ≡ true
    → is_nil (without_end_slashes s) ≡ false
    → is_origin_relative_path (without_end_slashes s) ≡ true
unfolding is_origin_relative_path
without_end-IsRelative s h k = ground (
  arith,
  strippable-without_end s,
  starts-without_end s,
  two_slashes-without_end s,
  any-without_end (λ d. nat_eq d 92) s,
  any-without_end (λ d. nat_eq d b'?') s,
  any-without_end (λ d. nat_eq d b'#') s,
)

pub normalize_declared_path-IsRelative :
    (path normalized : Text)
    → normalize_declared_path path ≡ ok normalized
    → is_origin_relative_path normalized ≡ true
unfolding normalize_declared_path
normalize_declared_path-IsRelative path normalized h =
    ground (arith, root-IsRelative, without_end-IsRelative (trim path))
