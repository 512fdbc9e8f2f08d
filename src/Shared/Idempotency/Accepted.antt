-- ===== src/Shared/Idempotency/Accepted.antt =====
-- A forwarded key is one that the receiver accepts.
use service_plane.Prelude.{ℕ, ◌≤◌, ◌≡◌, true, false, Option, none, some, arith}
use service_plane.Prelude.Lists.{All, length, is_nil, all, all-All}
use service_plane.Prelude.Text.{Text, trim, trim_idem}
use service_plane.Shared.Idempotency.{is_token_unit, normalize_forwarded_token}

-- A key that is neither empty nor over the length, of token characters only.
abbrev pub IsToken : ℕ → Text → Type 0
IsToken max_length key =
    (is_nil key ≡ false) × (length key ≤ max_length) × All (λ c. is_token_unit c ≡ true) key

-- Whatever is received, a token that comes out of the normalisation is not empty, within the length and
-- of token characters only, and normalising it again changes nothing: the receiver accepts it.
pub normalize_forwarded_token-IsToken :
    (value : Option Text) (max_length : ℕ) (key : Text)
    → normalize_forwarded_token value max_length ≡ some key
    → IsToken max_length key × (normalize_forwarded_token (some key) max_length ≡ some key)
unfolding normalize_forwarded_token
normalize_forwarded_token-IsToken none max_length key h = absurd (ground arith)
normalize_forwarded_token-IsToken (some value) max_length key h =
    let same : trim value ≡ key = ground arith in
    let again : trim key ≡ key = rw same at (trim_idem value) in
    let tokens : all is_token_unit key ≡ true = ground arith in
    ((ground arith, ground arith, all-All is_token_unit key tokens), ground (arith, again))
