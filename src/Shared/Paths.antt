-- ===== src/Shared/Paths.antt =====
-- src/shared/paths.ts: normal forms of route paths, template variables, and which paths stay on the
-- origin of their service.
use service_plane.Prelude.{ℕ, Bool, false, ◌&&◌, ◌||◌, not, Option, none, some, List, [], ◌∷◌, ◌++◌}
use service_plane.Prelude.Tests.{leb, nat_eq, if◌then◌else◌}
use service_plane.Prelude.Lists.{is_nil, any, all, drop_while_end}
use service_plane.Prelude.Text.{Text, text, ◌==◌, trim, split, includes}

-- `value.replace(/\/+$/u, '')`
unfoldable pub without_end_slashes : Text → Text
unfolding drop_while_end
without_end_slashes = drop_while_end (λ c. nat_eq c b'/')

-- `value.startsWith('/')`
unfoldable pub starts_with_slash : Text → Bool
starts_with_slash [] = false
starts_with_slash (c ∷ s) = nat_eq c b'/'

-- normalizePath(path)
unfoldable pub normalize_path : Text → Text
normalize_path path =
    let trimmed = trim path in
    let rooted = if starts_with_slash trimmed then trimmed else b'/' ∷ trimmed in
    if is_nil trimmed || trimmed == text "/" then text "/" else without_end_slashes rooted

-- joinPaths(prefix, path)
unfoldable pub join_paths : Text → Text → Text
join_paths prefix path =
    let normalized_prefix = normalize_path prefix in
    let normalized_path = normalize_path path in
    if normalized_prefix == text "/"
    then normalized_path
    else if normalized_path == text "/"
    then normalized_prefix
    else normalized_prefix ++ normalized_path

unfoldable pub is_letter : ℕ → Bool
is_letter c = leb b'A' c && leb c b'Z' || leb b'a' c && leb c b'z' || nat_eq c b'_'

-- `\w`
unfoldable pub is_word : ℕ → Bool
is_word c = is_letter c || leb b'0' c && leb c b'9'

is_name : Text → Bool
is_name [] = false
is_name (c ∷ s) = is_letter c && all is_word s

-- `open` up to a final brace, if the last unit is one
before_brace : Text → Option Text
before_brace [] = none
before_brace (c ∷ []) = if nat_eq c b'}' then some [] else none
before_brace (c ∷ d ∷ s) =
    let rest = before_brace (d ∷ s) in elim rest [ none ↦ none | some t ↦ some (c ∷ t) ]

named : Option Text → Option Text
named none = none
named (some name) = if is_name name then some name else none

-- `/^\{([A-Za-z_]\w*)\}$/u.exec(segment)?.[1]`
unfoldable pub template_variable : Text → Option Text
unfolding named before_brace is_name
template_variable [] = none
template_variable (c ∷ s) = if nat_eq c b'{' then named (before_brace s) else none

has_brace : Text → Bool
has_brace = any (λ c. nat_eq c b'{' || nat_eq c b'}')

-- The loop of `pathTemplateVariables`; the set keeps the order of insertion.
template_variables_from : List Text → List Text → Option (List Text)
template_variables_from names [] = some names
template_variables_from names (segment ∷ segments) =
    let plain = template_variables_from names segments in
    let name = template_variable segment in
    if has_brace segment
    then elim name [
      | none ↦ none
      | some n ↦
          if includes names n then none else template_variables_from (names ++ n ∷ []) segments
    ]
    else plain

-- pathTemplateVariables(path)
unfoldable pub path_template_variables : Text → Option (List Text)
unfolding template_variables_from has_brace
path_template_variables path = template_variables_from [] (split b'/' path)

-- hasStrippablePathChar(path)
unfoldable pub has_strippable_path_char : Text → Bool
has_strippable_path_char = any (λ code. leb code 0x20 || nat_eq code 0x7f)

unfoldable pub starts_with_two_slashes : Text → Bool
starts_with_two_slashes (c ∷ d ∷ s) = nat_eq c b'/' && nat_eq d b'/'
starts_with_two_slashes _ = false

abbrev pub has_unit : ℕ → Text → Bool
has_unit c = any (λ d. nat_eq d c)

-- isOriginRelativePath(path)
unfoldable pub is_origin_relative_path : Text → Bool
unfolding starts_with_two_slashes
is_origin_relative_path path =
    not (has_strippable_path_char path)
    && starts_with_slash path
    && not (starts_with_two_slashes path)
    && not (has_unit 92 path)
    && not (has_unit b'?' path)
    && not (has_unit b'#' path)
