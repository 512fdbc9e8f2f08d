-- ===== src/Caller/Hmac/Genuine.antt =====
-- What a request that hmacServiceClientAuth lets in shows of its caller.
use service_plane.Prelude.{
  ℕ, ◌*◌, ◌≤◌, ◌≡◌, refl, sym, ap, inl, inr, Option, false, none, some, arith,
}
use service_plane.Prelude.Tests.{Option-cases, Bool-cases}
use service_plane.Prelude.Lists.{is_nil, find?, find?-holds}
use service_plane.Prelude.Text.{Text, ◌==◌, eq_iff, trim}
use service_plane.Prelude.Number.{ℤ, whole}
use service_plane.Shared.Result.{Result, ok, err, Result-cases}
use service_plane.Shared.Assertion.{CallerRequest, trimmed}
use service_plane.Shared.Body.{bounded_request_body_bytes, bytes_of_body}
use service_plane.Shared.Hmac.{
  Mac, HmacRequestParts, hmac_request_parts, hmac_signature, extract_hmac_signature,
}
use service_plane.Caller.Hmac.Signed.{
  signed_text, CarriesSignature, IsServiceOf, hmac_service-IsServiceOf,
  extract_hmac_signature-carried, hmac_signature-signed, hmac_request_parts-signed,
}
use service_plane.Caller.Hmac.{
  HmacServiceClient, HmacAuth, accepted, distance, validate_hmac_timestamp, hmac_service,
  expected_signature, compared, with_signature, authenticate_hmac_caller,
}

-- The client is configured, and the request carries the signature that its secret gives to this request at
-- a time within the allowed skew.
pub record IsGenuine (mac : Mac) (parse_date : Text → Option ℤ) (auth : HmacAuth) (now : ℕ)
    (request : CallerRequest) (service : Text) : Type 0 where
  pub client_id : Text
  pub timestamp : Text
  pub time : ℤ
  pub signature : Text
  pub client : HmacServiceClient
  pub named : trimmed (request.header auth.client_id_header) ≡ some client_id
  pub stamped : trimmed (request.header auth.timestamp_header) ≡ some timestamp
  pub dated : parse_date timestamp ≡ some time
  pub fresh : distance now time ≤ auth.max_skew_seconds * 1000
  pub carried : CarriesSignature request signature
  pub configured :
      find? (λ (c : HmacServiceClient). c.client_id == client_id) auth.clients ≡ some client
  pub own : client.client_id ≡ client_id
  pub secret_set : is_nil (trim client.secret) ≡ false
  pub within_limit :
      bounded_request_body_bytes (some (whole auth.max_body_bytes)) request.declared request.body
      ≡ ok (bytes_of_body request.body)
  pub signed :
      signature
      ≡ mac.hmac
          (trim client.secret)
          (signed_text mac auth request (bytes_of_body request.body) timestamp client_id)
  pub reported : IsServiceOf client client.service_id service

-- What is left once the client, the time and the signature are there.
compared-equal :
    (mac : Mac) (parse_date : Text → Option ℤ) (auth : HmacAuth) (now : ℕ) (request : CallerRequest)
    (signature service : Text) (client : HmacServiceClient) (r : Result Text)
    → compared mac parse_date auth now request signature client r ≡ accepted service
    → (r ≡ ok signature) × (service ≡ hmac_service client)
unfolding compared
compared-equal mac parse_date auth now request signature service client (err error) =
    λ h. ground arith
compared-equal mac parse_date auth now request signature service client (ok expected) =
    elim (Bool-cases (signature == expected)) [
      | inl same ↦ rw same (λ h. (ap ok (sym ((eq_iff signature expected).0 same)), ground arith))
      | inr other ↦ rw other (λ h. ground arith)
    ]

fresh-distance :
    (parsed : ℤ) (now max_skew : ℕ)
    → validate_hmac_timestamp (some parsed) now max_skew ≡ none
    → distance now parsed ≤ max_skew * 1000
unfolding validate_hmac_timestamp
fresh-distance parsed now max_skew h = ground arith

-- The signature that is expected of the client is one of the parts of this request.
expected-parts :
    (mac : Mac) (parse_date : Text → Option ℤ) (auth : HmacAuth) (now : ℕ) (request : CallerRequest)
    (client_id timestamp signature : Text) (client : HmacServiceClient)
    → expected_signature mac parse_date auth now request client_id timestamp client ≡ ok signature
    → (parts : HmacRequestParts) × (hmac_request_parts mac request client_id timestamp
          auth.request_id_header
          (some (whole auth.max_body_bytes))
        ≡ ok parts)
      × (hmac_signature mac client.secret parts ≡ ok signature)
unfolding expected_signature
expected-parts mac parse_date auth now request client_id timestamp signature client =
    elim (Result-cases (
      hmac_request_parts mac request client_id timestamp auth.request_id_header
        (some (whole auth.max_body_bytes)))) [
          | inl (parts, e) ↦ rw e (λ h. (parts, refl, h))
          | inr (error, e) ↦ rw e (λ h. ground arith)
        ]

dated_request :
    (mac : Mac) (parse_date : Text → Option ℤ) (auth : HmacAuth) (now : ℕ) (request : CallerRequest)
    (service client_id timestamp : Text) (time : ℤ)
    → trimmed (request.header auth.client_id_header) ≡ some client_id
    → trimmed (request.header auth.timestamp_header) ≡ some timestamp
    → parse_date timestamp ≡ some time
    → distance now time ≤ auth.max_skew_seconds * 1000
    → with_signature mac parse_date auth now request client_id timestamp
        (extract_hmac_signature request)
      ≡ accepted service
    → IsGenuine mac parse_date auth now request service
unfolding with_signature
dated_request mac parse_date auth now request service client_id timestamp time named stamped dated
      fresh =
    elim (Result-cases (extract_hmac_signature request)) [
      | inr (error, e) ↦ rw e (λ h. ground arith)
      | inl (signature, carried) ↦
          rw carried
            (elim (Option-cases
              (find? (λ (c : HmacServiceClient). c.client_id == client_id) auth.clients)) [
                | inl unknown ↦ rw unknown (λ h. ground arith)
                | inr (client, configured) ↦ rw configured (λ h.
                    let c =
                      compared-equal mac parse_date auth now request signature service client
                        (expected_signature mac parse_date auth now request client_id timestamp
                          client)
                        h in
                    let p =
                      expected-parts mac parse_date auth now request client_id timestamp signature
                        client c.0 in
                    let signed = hmac_signature-signed mac client.secret p.0 signature p.2 in
                    let parts =
                      hmac_request_parts-signed mac auth request client_id timestamp p.0 p.1 in
                    record {
                      client_id = client_id;
                      timestamp = timestamp;
                      time = time;
                      signature = signature;
                      client = client;
                      named = named;
                      stamped = stamped;
                      dated = dated;
                      fresh = fresh;
                      carried = extract_hmac_signature-carried request signature carried;
                      configured = configured;
                      own = (eq_iff client.client_id client_id).0 (
                          find?-holds (λ (c : HmacServiceClient). c.client_id == client_id)
                            auth.clients client configured);
                      secret_set = signed.0;
                      within_limit = parts.0;
                      signed = cc (signed.1, parts.1);
                      reported = hmac_service-IsServiceOf client service c.1;
                    })
              ])
    ]

-- Where a caller is let in by the signature in its authorization, the client that it names is
-- configured and has a secret, the timestamp of the request is within the allowed skew, the body is
-- within the limit, and the signature is the one that the client's own secret gives to the lines of
-- the method, the path, the hash of the whole body, the timestamp, the client and the request id of
-- this request; the service that is reported is the one that is configured for the client, or else
-- the client itself.
pub authenticate_hmac_caller-IsGenuine :
    (mac : Mac) (parse_date : Text → Option ℤ) (auth : HmacAuth) (now : ℕ) (request : CallerRequest)
    (service : Text)
    → authenticate_hmac_caller mac parse_date auth now request ≡ accepted service
    → IsGenuine mac parse_date auth now request service
unfolding authenticate_hmac_caller
authenticate_hmac_caller-IsGenuine mac parse_date auth now request service =
    elim (Option-cases (trimmed (request.header auth.client_id_header))) [
      | inl missing ↦ rw missing (λ h. ground arith)
      | inr (client_id, named) ↦
          rw named (elim (Option-cases (trimmed (request.header auth.timestamp_header))) [
            | inl missing ↦ rw missing (λ h. ground arith)
            | inr (timestamp, stamped) ↦ rw stamped (elim (Option-cases (parse_date timestamp)) [
              | inl undated ↦ rw undated (λ h. ground arith)
              | inr (time, dated) ↦
                  rw dated
                    (elim (Option-cases
                      (validate_hmac_timestamp (some time) now auth.max_skew_seconds)) [
                        | inr (reason, e) ↦ rw e (λ h. ground arith)
                        | inl fresh ↦ rw fresh (
                            dated_request mac parse_date auth now request service client_id
                              timestamp time named stamped dated
                              (fresh-distance time now auth.max_skew_seconds fresh))
                      ])
            ])
          ])
    ]
