-- ===== src/Examples/Budgets.antt =====
-- Runs of the timeout policy, of a deadline, and of a proof of possession.
use service_plane.Prelude.{
  ℕ, ◌+◌, ◌≤◌, ◌<◌, ◌≡◌, ◌≢◌, ◌↔◌, ◌⊎◌, refl, inl, inr, Bool, true, false, Option, none, some, List,
  [], ◌∷◌, arith,
}
use service_plane.Prelude.Text.{Text, text, ◌==◌, trim}
use service_plane.Prelude.Number.{JsNumber, whole}
use service_plane.Prelude.Value.{Value, str, num, obj, field, end, prop, is_object, number_value}
use service_plane.Shared.Message.{bad_proof}
use service_plane.Shared.Errors.{ServicePlaneError, auth_error, error_info, error_value}
use service_plane.Shared.Errors.Laws.{error_info-error_value}
use service_plane.Shared.Result.{ok}
use service_plane.Shared.Crypto.{Crypto}
use service_plane.Shared.Proof.{
  VerifyProofOptions, ProofClaims, parse_proof_claims, check_proof_claims, verify_capability_proof,
}
use service_plane.Shared.Proof.Laws.{IsBound, verify_capability_proof-IsBound}
use service_plane.Shared.Idempotency.{normalize_forwarded_token}
use service_plane.Shared.Deadline.{
  normalize_timeout_ms, TimeoutPolicy, resolve_timeout_ms, validate_timeout_policy,
  remaining_timeout_ms, serialize_timeout_ms, parse_timeout_ms,
}
use service_plane.Shared.Deadline.Policy.{IsBudget, resolve-validated-le_ceiling}
use service_plane.Shared.Deadline.Wire.{parse-serialize}
use service_plane.Shared.Deadline.Race.{
  RaceDeadlineOptions, timed, race_deadline, fired, resolved, begin, run, DecidedBy,
  first_event_decides,
}
use service_plane.Examples.Plane.{demo_crypto}

abbrev one_second : TimeoutPolicy
one_second = record { default_ms = none; max_ms = some (whole 1000) }

one_second-valid : validate_timeout_policy (some one_second) ≡ ok (some one_second)
unfolding validate_timeout_policy service_plane.Shared.Deadline.check_policy_field
    service_plane.Prelude.Number.is_finite service_plane.Prelude.Number.is_safe_integer
    service_plane.Prelude.Number.exceeds service_plane.Prelude.Number.floor_of
one_second-valid = refl

one_second-resolved : resolve_timeout_ms (some (whole 5000)) (some one_second) ≡ some 1000
unfolding resolve_timeout_ms normalize_timeout_ms service_plane.Prelude.Number.is_finite
    service_plane.Prelude.Number.is_safe_integer service_plane.Prelude.Number.exceeds
    service_plane.Prelude.Number.floor_of
one_second-resolved = refl

resolve-validated-le_ceiling_example :
    IsBudget 1000 × ((k : ℕ) × (whole 1000 ≡ whole k) × (1000 ≤ k))
resolve-validated-le_ceiling_example =
    resolve-validated-le_ceiling (some (whole 5000)) one_second (whole 1000) 1000 refl
      one_second-valid one_second-resolved

parse-serialize_example :
    parse_timeout_ms (serialize_timeout_ms (some (whole 1234)))
    ≡ normalize_timeout_ms (number_value (some (whole 1234)))
parse-serialize_example = parse-serialize (some (whole 1234))

five_seconds-parsed : parse_timeout_ms (some (text " 5000")) ≡ some 5000
unfolding parse_timeout_ms normalize_timeout_ms trim service_plane.Prelude.Lists.all
    service_plane.Shared.Deadline.is_digit service_plane.Prelude.Number.is_finite
    service_plane.Prelude.Number.is_safe_integer service_plane.Shared.Deadline.number_from
    service_plane.Prelude.Number.exceeds service_plane.Prelude.Number.floor_of
five_seconds-parsed = refl

abbrev refused : ServicePlaneError
refused = auth_error bad_proof 401

first_event_decides_example :
    DecidedBy {V = ℕ} {F = Text} refused fired
      (resolved 7 ∷ [])
      (run refused (fired ∷ resolved 7 ∷ []) (begin (timed 10 refused)))
first_event_decides_example = first_event_decides 10 refused fired (resolved 7 ∷ [])

abbrev nearer : RaceDeadlineOptions
nearer = record {
  ceiling_error = none;
  ceiling_ms = some 50;
  deadline_at = some 130;
  deadline_error = refused;
}

nearer-timed : race_deadline 100 nearer ≡ timed 30 refused
unfolding race_deadline
nearer-timed = refl

error_info-error_value_example :
    error_info (error_value (λ m. text "refused") refused)
    ≡ some (record {
      code = refused.code;
      message = text "refused";
      reason = refused.reason;
      retryable = refused.retryable;
      status = refused.status;
    })
unfolding service_plane.Prelude.Number.is_integer auth_error
error_info-error_value_example = error_info-error_value (λ m. text "refused") refused

abbrev demo_proof : Value
demo_proof = obj (
    field (text "abl") (str (text "a1")) (
      field (text "ath") (str (text "t")) (
        field (text "aud") (str (text "b")) (
          field (text "cnk")
            (obj (
              field (text "kty") (str (text "EC")) (
                field (text "crv") (str (text "P-256"))
                  (field (text "x") (str (text "x")) (field (text "y") (str (text "y")) end)))))
            (field (text "exp") (num (whole 100))
              (field (text "iat") (num (whole 90)) (field (text "jti") (str (text "j")) end)))))))

abbrev proof_crypto : Crypto
proof_crypto = record demo_crypto {
  decode = λ proof. some (obj end, demo_proof);
  verify_proof = λ proof key. proof == text "proof";
}

abbrev proof_options : VerifyProofOptions
proof_options = record {
  ability_id = text "a1";
  confirmation = text "x";
  now = 95000;
  target_service_id = text "b";
  token = text "t";
}

demo_proof-verified : verify_capability_proof proof_crypto (text "proof") proof_options ≡ ok tt
unfolding verify_capability_proof check_proof_claims parse_proof_claims prop ◌==◌ is_object
    service_plane.Prelude.Value.is_string service_plane.Prelude.Number.exceeds
    service_plane.Prelude.Number.at_most_ℤ service_plane.Prelude.Number.at_most_number
    service_plane.Prelude.Number.exceeds_by
demo_proof-verified = refl

verify_capability_proof-IsBound_example :
    (header payload : Value) × (claims : ProofClaims) × (proof_crypto.decode (text "proof")
      ≡ some (header, payload))
    × (parse_proof_claims payload ≡ ok claims)
    × IsBound proof_crypto (text "proof") proof_options claims
verify_capability_proof-IsBound_example =
    verify_capability_proof-IsBound proof_crypto (text "proof") proof_options demo_proof-verified

padded_key-normal : normalize_forwarded_token (some (text " k-1 ")) 255 ≡ some (text "k-1")
unfolding normalize_forwarded_token trim service_plane.Prelude.Lists.all
    service_plane.Shared.Idempotency.is_token_unit service_plane.Shared.Paths.is_letter
padded_key-normal = refl
