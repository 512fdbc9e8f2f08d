-- ===== src/Shared/Idempotency.antt =====
-- src/shared/idempotency.ts: the keys that are forwarded.
pub mod Accepted
use service_plane.Prelude.{ℕ, Bool, ◌||◌, not, Option, none, some}
use service_plane.Prelude.Tests.{ltb, nat_eq, if◌then◌else◌}
use service_plane.Prelude.Lists.{length, is_nil, all}
use service_plane.Prelude.Text.{Text, trim}
use service_plane.Shared.Deadline.{or_else}
use service_plane.Shared.Paths.{is_word}

-- `[\w\-=]`
unfoldable pub is_token_unit : ℕ → Bool
unfolding is_word
is_token_unit c = is_word c || nat_eq c b'-' || nat_eq c b'='

-- normalizeForwardedToken(value, maxLength), of a value that is a string or missing
unfoldable pub normalize_forwarded_token : Option Text → ℕ → Option Text
normalize_forwarded_token none max_length = none
normalize_forwarded_token (some value) max_length =
    let trimmed = trim value in
    if is_nil trimmed || ltb max_length (length trimmed) || not (all is_token_unit trimmed)
    then none
    else some trimmed

-- normalizeIdempotencyKey(value)
unfoldable pub normalize_idempotency_key : Option Text → Option Text
unfolding normalize_forwarded_token
normalize_idempotency_key value = normalize_forwarded_token value 255

-- idempotencyKeyFromRequest(request), of what its header and its query parameter hold
unfoldable pub idempotency_key_from_request : Option Text → Option Text → Option Text
unfolding normalize_idempotency_key
idempotency_key_from_request header query = normalize_idempotency_key (or_else header query)
