-- ===== src/Caller/Hmac.antt =====
-- hmacServiceClientAuth of src/control-plane/caller-auth.ts: the caller of the token endpoint is who holds
-- the secret that signed its request.
pub mod Signed
pub mod Genuine
pub mod LetIn
use service_plane.Prelude.{
  ℕ, suc, ◌+◌, ◌-◌, ◌*◌, Bool, true, false, not, Option, none, some, List, [], ◌∷◌,
}
use service_plane.Prelude.Tests.{leb, ltb, if◌then◌else◌}
use service_plane.Prelude.Lists.{find?}
use service_plane.Prelude.Text.{Text, ◌==◌}
use service_plane.Prelude.Number.{ℤ, pos, negsuc, whole}
use service_plane.Shared.Errors.{ServicePlaneError}
use service_plane.Shared.Result.{Result, ok, err, ◌>>=◌}
use service_plane.Shared.Assertion.{CallerRequest, trimmed}
use service_plane.Shared.Hmac.{
  Mac, HmacRequestParts, hmac_request_parts, hmac_signature, extract_hmac_signature,
}

pub record HmacServiceClient : Type 0 where
  pub client_id : Text
  pub secret : Text
  pub service_id : Option Text

-- The options, with the clients that their function gives for the request.
pub record HmacAuth : Type 0 where
  pub client_id_header : Text
  pub clients : List HmacServiceClient
  pub max_body_bytes : ℕ
  pub max_skew_seconds : ℕ
  pub request_id_header : Text
  pub timestamp_header : Text

-- The reasons of the log events; an error that is caught becomes its message.
pub data HmacReason : Type 0 where
  no_client no_timestamp invalid_timestamp timestamp_skew unknown_client wrong_signature :
      HmacReason
  no_signature caught : ServicePlaneError → HmacReason

pub data HmacOutcome : Type 0 where
  refused : HmacReason → HmacOutcome
  accepted : Text → HmacOutcome

-- `Math.abs(now - parsed)`
abbrev pub distance : ℕ → ℤ → ℕ
distance now (pos t) = if leb t now then now - t else t - now
distance now (negsuc t) = now + suc t

-- validateHmacTimestamp(timestamp, now, maxSkewSeconds), of the time that the timestamp is
unfoldable pub validate_hmac_timestamp : Option ℤ → ℕ → ℕ → Option HmacReason
validate_hmac_timestamp none now max_skew = some invalid_timestamp
validate_hmac_timestamp (some parsed) now max_skew =
    if ltb (max_skew * 1000) (distance now parsed) then some timestamp_skew else none

abbrev pub hmac_service : HmacServiceClient → Text
hmac_service client = elim client.service_id [ none ↦ client.client_id | some id ↦ id ]

-- `parse_date` is `new Date(timestamp).getTime()`, none where it is NaN. timingSafeEqual is equality here.
module _ (mac : Mac) (parse_date : Text → Option ℤ) (auth : HmacAuth) (now : ℕ)
    (request : CallerRequest) where
  expected_signature : Text → Text → HmacServiceClient → Result Text
  expected_signature client_id timestamp client = do
    parts ←
        hmac_request_parts mac request client_id timestamp auth.request_id_header
          (some (whole auth.max_body_bytes))
    hmac_signature mac client.secret parts

  compared : Text → HmacServiceClient → Result Text → HmacOutcome
  compared signature client (err error) = refused (caught error)
  compared signature client (ok expected) =
      if signature == expected then accepted (hmac_service client) else refused wrong_signature

  with_client : Text → Text → Text → Option HmacServiceClient → HmacOutcome
  unfolding compared expected_signature
  with_client client_id timestamp signature none = refused unknown_client
  with_client client_id timestamp signature (some client) =
      compared signature client (expected_signature client_id timestamp client)

  with_signature : Text → Text → Result Text → HmacOutcome
  unfolding with_client
  with_signature client_id timestamp (err error) = refused (no_signature error)
  with_signature client_id timestamp (ok signature) =
      with_client client_id timestamp signature
        (find? (λ (c : HmacServiceClient). c.client_id == client_id) auth.clients)

  in_time : Text → Text → Option HmacReason → HmacOutcome
  unfolding with_signature
  in_time client_id timestamp (some reason) = refused reason
  in_time client_id timestamp none =
      with_signature client_id timestamp (extract_hmac_signature request)

  with_timestamp : Text → Option Text → HmacOutcome
  unfolding in_time validate_hmac_timestamp
  with_timestamp client_id none = refused no_timestamp
  with_timestamp client_id (some timestamp) =
      in_time client_id timestamp
        (validate_hmac_timestamp (parse_date timestamp) now auth.max_skew_seconds)

  from_client : Option Text → HmacOutcome
  unfolding with_timestamp
  from_client none = refused no_client
  from_client (some client_id) =
      with_timestamp client_id (trimmed (request.header auth.timestamp_header))

  -- the handler that hmacServiceClientAuth(options) returns, with its limits normalized
  unfoldable pub authenticate_hmac_caller : HmacOutcome
  unfolding from_client
  authenticate_hmac_caller = from_client (trimmed (request.header auth.client_id_header))
