-- ===== src/Caller/Hmac/LetIn.antt =====
-- A request that signServicePlaneHmacRequest of src/shared/hmac-auth.ts signs is let in by
-- hmacServiceClientAuth of src/control-plane/caller-auth.ts.
use service_plane.Prelude.{
  ℕ, ◌*◌, ◌≤◌, ◌≡◌, refl, sym, ap, ◌∙◌, inl, inr, false, Option, none, some, List, ◌∷◌, map, arith,
}
use service_plane.Prelude.Tests.{Bool-cases}
use service_plane.Prelude.Lists.{is_nil, find?}
use service_plane.Prelude.Text.{Text, text, ◌==◌, eq_refl, trim}
use service_plane.Prelude.Number.{ℤ, whole}
use service_plane.Shared.Result.{Result, ok, Result-cases}
use service_plane.Shared.Body.{
  bounded_request_body_bytes, bytes_of_body, bounded_request_body_bytes-bytes,
}
use service_plane.Shared.Assertion.{CallerRequest, trimmed, set_header, lower_unit, upper_unit}
use service_plane.Shared.Assertion.Carried.{IsWord}
use service_plane.Shared.Hmac.{
  Mac, HmacRequestParts, hmac_request_parts, hmac_signature, hmac_canonical_string,
  extract_hmac_signature, hmac_authorization_header, SignHmacOptions, stamped_request,
  sign_service_plane_hmac_request,
}
use service_plane.Shared.Hmac.Carried.{extract_hmac_signature-authorization}
use service_plane.Caller.Hmac.{
  HmacServiceClient, HmacAuth, accepted, distance, validate_hmac_timestamp, hmac_service,
  expected_signature, compared, authenticate_hmac_caller,
}

-- What the two sides agree on.
pub record AgreesHmac (o : SignHmacOptions) (auth : HmacAuth) (client : HmacServiceClient)
    : Type 0 where
  pub client_header : auth.client_id_header ≡ o.client_id_header
  pub timestamp_header : auth.timestamp_header ≡ o.timestamp_header
  pub request_header : auth.request_id_header ≡ o.request_id_header
  pub apart : (map lower_unit o.client_id_header == map lower_unit o.timestamp_header) ≡ false
  pub client_not_authorization : (map lower_unit o.client_id_header == text "authorization") ≡ false
  pub timestamp_not_authorization :
      (map lower_unit o.timestamp_header == text "authorization") ≡ false
  pub request_not_authorization :
      (map lower_unit o.request_id_header == text "authorization") ≡ false
  pub client_id : trimmed (some o.client_id) ≡ some o.client_id
  pub configured :
      find? (λ (c : HmacServiceClient). c.client_id == o.client_id) auth.clients ≡ some client
  pub secret : client.secret ≡ o.secret

-- The parts that both sides make of the request.
unfoldable pub signed_parts : Mac → SignHmacOptions → Text → CallerRequest → HmacRequestParts
unfolding stamped_request
signed_parts mac o timestamp request = record {
  body_hash = mac.sha256_bytes (bytes_of_body request.body);
  client_id = o.client_id;
  method = map upper_unit request.method;
  path_with_query = request.path_with_query;
  request_id = trimmed ((stamped_request o timestamp request).header o.request_id_header);
  timestamp = timestamp;
}

unfoldable pub sent_with : SignHmacOptions → Text → Text → CallerRequest → CallerRequest
unfolding stamped_request
sent_with o timestamp signature request = record (stamped_request o timestamp request) {
  header =
      set_header (text "authorization") (hmac_authorization_header signature)
        (stamped_request o timestamp request).header;
}

same_request : {r q : CallerRequest} → ◌≡◌ {A = Result CallerRequest} (ok r) (ok q) → r ≡ q
same_request e = cc

sign_hmac_ok :
    (mac : Mac) (o : SignHmacOptions) (timestamp : Text) (request : CallerRequest)
    → bounded_request_body_bytes o.max_body_bytes request.declared request.body
      ≡ ok (bytes_of_body request.body)
    → is_nil (trim o.secret) ≡ false
    → sign_service_plane_hmac_request mac o timestamp request
      ≡ ok (
          sent_with o timestamp
            (mac.hmac
              (trim o.secret)
              (hmac_canonical_string (signed_parts mac o timestamp request)))
            request)
unfolding sign_service_plane_hmac_request hmac_request_parts hmac_signature sent_with signed_parts
    stamped_request
sign_hmac_ok mac o timestamp request read named = rw (read, named) refl

sign_hmac-sent :
    (mac : Mac) (o : SignHmacOptions) (timestamp : Text) (request signed : CallerRequest)
    → sign_service_plane_hmac_request mac o timestamp request ≡ ok signed
    → (is_nil (trim o.secret) ≡ false)
      × (signed
          ≡ sent_with o timestamp
              (mac.hmac
                (trim o.secret)
                (hmac_canonical_string (signed_parts mac o timestamp request)))
              request)
unfolding sign_service_plane_hmac_request hmac_request_parts hmac_signature stamped_request
sign_hmac-sent mac o timestamp request signed h =
    elim (Result-cases
      (bounded_request_body_bytes o.max_body_bytes request.declared request.body)) [
        | inr (e, refused) ↦ absurd (ground arith)
        | inl (bytes, read) ↦ elim (Bool-cases (is_nil (trim o.secret))) [
          | inl blank ↦ absurd (ground arith)
          | inr named ↦ (
            named,
            same_request (
                sym h
                ∙ sign_hmac_ok mac o timestamp request
                    (read
                      ∙ ap ok (
                          bounded_request_body_bytes-bytes o.max_body_bytes request.declared
                            request.body bytes read))
                    named),
          )
        ]
      ]

fresh_distance :
    (time : ℤ) (now max_skew : ℕ)
    → distance now time ≤ max_skew * 1000
    → validate_hmac_timestamp (some time) now max_skew ≡ none
unfolding validate_hmac_timestamp
fresh_distance time now max_skew h = ground arith

authenticate-accepted :
    (mac : Mac) (parse_date : Text → Option ℤ) (auth : HmacAuth) (now : ℕ) (request : CallerRequest)
    (client_id timestamp signature : Text) (time : ℤ) (client : HmacServiceClient)
    → trimmed (request.header auth.client_id_header) ≡ some client_id
    → trimmed (request.header auth.timestamp_header) ≡ some timestamp
    → parse_date timestamp ≡ some time
    → distance now time ≤ auth.max_skew_seconds * 1000
    → extract_hmac_signature request ≡ ok signature
    → find? (λ (c : HmacServiceClient). c.client_id == client_id) auth.clients ≡ some client
    → expected_signature mac parse_date auth now request client_id timestamp client ≡ ok signature
    → authenticate_hmac_caller mac parse_date auth now request ≡ accepted (hmac_service client)
unfolding authenticate_hmac_caller compared
authenticate-accepted mac parse_date auth now request client_id timestamp signature time client n t
      d f c k e =
    rw (n, t, d, fresh_distance time now auth.max_skew_seconds f, c, k, e, eq_refl signature) refl

expected-sent :
    (mac : Mac) (parse_date : Text → Option ℤ) (o : SignHmacOptions) (auth : HmacAuth)
    (client : HmacServiceClient) (now : ℕ) (timestamp signature : Text) (request : CallerRequest)
    → AgreesHmac o auth client
    → bounded_request_body_bytes (some (whole auth.max_body_bytes)) request.declared request.body
      ≡ ok (bytes_of_body request.body)
    → is_nil (trim o.secret) ≡ false
    → expected_signature mac parse_date auth now
        (sent_with o timestamp signature request)
        o.client_id
        timestamp
        client
      ≡ ok (mac.hmac (trim o.secret) (hmac_canonical_string (signed_parts mac o timestamp request)))
unfolding expected_signature hmac_request_parts hmac_signature sent_with signed_parts
    stamped_request
expected-sent mac parse_date o auth client now timestamp signature request agrees fits named =
    rw (agrees.request_header, agrees.request_not_authorization, fits, agrees.secret, named) refl

sent_with-client :
    (o : SignHmacOptions) (auth : HmacAuth) (client : HmacServiceClient)
    (timestamp signature : Text) (request : CallerRequest)
    → AgreesHmac o auth client
    → (sent_with o timestamp signature request).header auth.client_id_header ≡ some o.client_id
unfolding sent_with stamped_request
sent_with-client o auth client timestamp signature request agrees =
    rw
      (
        agrees.client_header,
        agrees.client_not_authorization,
        agrees.apart,
        eq_refl (map lower_unit o.client_id_header),
      )
      refl

sent_with-timestamp :
    (o : SignHmacOptions) (auth : HmacAuth) (client : HmacServiceClient)
    (timestamp signature : Text) (request : CallerRequest)
    → AgreesHmac o auth client
    → (sent_with o timestamp signature request).header auth.timestamp_header ≡ some timestamp
unfolding sent_with stamped_request
sent_with-timestamp o auth client timestamp signature request agrees =
    rw
      (
        agrees.timestamp_header,
        agrees.timestamp_not_authorization,
        eq_refl (map lower_unit o.timestamp_header),
      )
      refl

-- A request that is signed with a client's secret is let in as that client: where the two sides agree on
-- headers, client and secret, the body fits the plane's limit, the timestamp is read as a time within the
-- skew, and the signature is a text without spaces, as base64url is.
pub authenticate_hmac_caller-sign :
    (mac : Mac) (parse_date : Text → Option ℤ) (o : SignHmacOptions) (auth : HmacAuth)
    (client : HmacServiceClient) (now : ℕ) (timestamp : Text) (time : ℤ)
    (request signed : CallerRequest) (bytes : List ℕ) (c : ℕ) (s : Text)
    → AgreesHmac o auth client
    → trimmed (some timestamp) ≡ some timestamp
    → parse_date timestamp ≡ some time
    → distance now time ≤ auth.max_skew_seconds * 1000
    → bounded_request_body_bytes (some (whole auth.max_body_bytes)) request.declared request.body
      ≡ ok bytes
    → mac.hmac (trim o.secret) (hmac_canonical_string (signed_parts mac o timestamp request))
      ≡ c ∷ s
    → IsWord (c ∷ s)
    → sign_service_plane_hmac_request mac o timestamp request ≡ ok signed
    → authenticate_hmac_caller mac parse_date auth now signed ≡ accepted (hmac_service client)
unfolding sent_with stamped_request ◌==◌
authenticate_hmac_caller-sign mac parse_date o auth client now timestamp time request signed bytes c
      s agrees stamped dated fresh fits made word h =
    let e = sign_hmac-sent mac o timestamp request signed h in
    let signature =
      mac.hmac (trim o.secret) (hmac_canonical_string (signed_parts mac o timestamp request)) in
    let r : CallerRequest = sent_with o timestamp signature request in
    let fits_all =
      fits
      ∙ ap ok (
          bounded_request_body_bytes-bytes (some (whole auth.max_body_bytes)) request.declared
            request.body bytes fits) in
    ap (authenticate_hmac_caller mac parse_date auth now) e.1
    ∙ authenticate-accepted mac parse_date auth now r o.client_id timestamp signature time client
        (ap trimmed (sent_with-client o auth client timestamp signature request agrees)
          ∙ agrees.client_id)
        (ap trimmed (sent_with-timestamp o auth client timestamp signature request agrees)
          ∙ stamped)
        dated fresh
        (extract_hmac_signature-authorization r c s word
            (ap (λ a. some (hmac_authorization_header a)) made)
          ∙ ap ok (sym made))
        agrees.configured
        (expected-sent mac parse_date o auth client now timestamp signature request agrees fits_all
          e.0)
