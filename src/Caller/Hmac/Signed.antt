-- ===== src/Caller/Hmac/Signed.antt =====
-- What a request that is signed with a shared secret carries and what its signature is over, for
-- src/shared/hmac-auth.ts and hmacServiceClientAuth.
use service_plane.Prelude.{
  ℕ, ◌≡◌, refl, inl, inr, Option, false, none, some, List, [], ◌∷◌, map, arith,
}
use service_plane.Prelude.Tests.{Option-cases}
use service_plane.Prelude.Lists.{is_nil}
use service_plane.Prelude.Text.{Text, text, eq_iff, trim}
use service_plane.Prelude.Number.{whole}
use service_plane.Shared.Result.{ok, Result-cases}
use service_plane.Shared.Assertion.{CallerRequest, trimmed, upper_unit, lower_unit, split_spaces}
use service_plane.Shared.Body.{
  bounded_request_body_bytes, bytes_of_body, bounded_request_body_bytes-bytes,
}
use service_plane.Shared.Hmac.{
  Mac, HmacRequestParts, hmac_request_parts, joined_lines, or_empty, hmac_canonical_string,
  hmac_signature, hmac_parts, extract_hmac_signature,
}
use service_plane.Caller.Hmac.{HmacServiceClient, HmacAuth, hmac_service}

-- What a client signs of a request: a line for its version, its method in upper case, its path, the hash
-- of its body, its timestamp, its client and its request id, empty where it has none.
abbrev pub signed_text : Mac → HmacAuth → CallerRequest → List ℕ → Text → Text → Text
signed_text mac auth request bytes timestamp client_id = joined_lines (
    text "service-plane-hmac-v1"
    ∷ map upper_unit request.method
    ∷ request.path_with_query
    ∷ mac.sha256_bytes bytes
    ∷ timestamp
    ∷ client_id
    ∷ or_empty (trimmed (request.header auth.request_id_header))
    ∷ [])

-- The request's authorization is the scheme, in any case, and the signature, which is not empty.
abbrev pub CarriesSignature : CallerRequest → Text → Type 0
CarriesSignature request signature =
    (authorization : Text) × (scheme : Text) × (trimmed (request.header (text "authorization"))
      ≡ some authorization)
    × (split_spaces authorization ≡ scheme ∷ signature ∷ [])
    × (map lower_unit scheme ≡ text "serviceplane-hmac")
    × (is_nil signature ≡ false)

-- The service of a client: the one that is configured for it, or else the client itself.
abbrev pub IsServiceOf : HmacServiceClient → Option Text → Text → Type 0
IsServiceOf client none service = service ≡ client.client_id
IsServiceOf client (some id) service = service ≡ id

hmac_service-id :
    (client : HmacServiceClient) (id : Option Text) (service : Text)
    → client.service_id ≡ id
    → service ≡ hmac_service client
    → IsServiceOf client id service
hmac_service-id client none service e h = ground (arith, e)
hmac_service-id client (some id) service e h = ground (arith, e)

pub hmac_service-IsServiceOf :
    (client : HmacServiceClient) (service : Text)
    → service ≡ hmac_service client
    → IsServiceOf client client.service_id service
hmac_service-IsServiceOf client service h = hmac_service-id client client.service_id service refl h

hmac_parts-scheme :
    (pieces : List Text) (signature : Text)
    → hmac_parts pieces ≡ ok signature
    → (scheme : Text) × (pieces ≡ scheme ∷ signature ∷ [])
      × (map lower_unit scheme ≡ text "serviceplane-hmac")
      × (is_nil signature ≡ false)
unfolding hmac_parts
hmac_parts-scheme [] signature h = absurd (ground arith)
hmac_parts-scheme (a ∷ []) signature h = absurd (ground arith)
hmac_parts-scheme (a ∷ b ∷ c ∷ pieces) signature h = absurd (ground arith)
hmac_parts-scheme (scheme ∷ given ∷ []) signature h =
    let known = eq_iff (map lower_unit scheme) (text "serviceplane-hmac") in
    let same : given ≡ signature = ground arith in
    (scheme, cc same, known.0 (ground arith), ground arith)

pub extract_hmac_signature-carried :
    (request : CallerRequest) (signature : Text)
    → extract_hmac_signature request ≡ ok signature
    → CarriesSignature request signature
unfolding extract_hmac_signature
extract_hmac_signature-carried request signature =
    elim (Option-cases (trimmed (request.header (text "authorization")))) [
      | inl missing ↦ rw missing (λ h. absurd (ground arith))
      | inr (authorization, given) ↦ rw given (λ h.
          let (scheme, pieces, known, present) =
            hmac_parts-scheme (split_spaces authorization) signature h in
          (authorization, scheme, refl, pieces, known, present))
    ]

upper_unit_idem : (c : ℕ) → upper_unit (upper_unit c) ≡ upper_unit c
upper_unit_idem c = ground arith

map-upper_unit_idem : (s : Text) → map upper_unit (map upper_unit s) ≡ map upper_unit s
map-upper_unit_idem [] = refl
map-upper_unit_idem (c ∷ s) = cc (upper_unit_idem c, map-upper_unit_idem s)

pub hmac_signature-signed :
    (mac : Mac) (secret : Text) (parts : HmacRequestParts) (signature : Text)
    → hmac_signature mac secret parts ≡ ok signature
    → (is_nil (trim secret) ≡ false)
      × (signature ≡ mac.hmac (trim secret) (hmac_canonical_string parts))
unfolding hmac_signature
hmac_signature-signed mac secret parts signature h = (ground arith, ground arith)

module _ (mac : Mac) (auth : HmacAuth) (request : CallerRequest) (client_id timestamp : Text)
    (parts : HmacRequestParts) where
  pub hmac_request_parts-signed :
      hmac_request_parts mac request client_id timestamp auth.request_id_header
          (some (whole auth.max_body_bytes))
        ≡ ok parts
      → (bounded_request_body_bytes (some (whole auth.max_body_bytes)) request.declared request.body
          ≡ ok (bytes_of_body request.body))
        × (hmac_canonical_string parts
            ≡ signed_text mac auth request (bytes_of_body request.body) timestamp client_id)
  unfolding hmac_request_parts hmac_canonical_string
  hmac_request_parts-signed =
      elim (Result-cases (
        bounded_request_body_bytes (some (whole auth.max_body_bytes)) request.declared
          request.body)) [
            | inr (error, e) ↦ rw e (λ h. absurd (ground arith))
            | inl (bytes, e) ↦ rw e (λ h.
                let all_bytes =
                  bounded_request_body_bytes-bytes (some (whole auth.max_body_bytes))
                    request.declared request.body bytes e in
                let upper = map-upper_unit_idem request.method in
                (ground (arith, e, all_bytes), ground (arith, all_bytes, upper)))
          ]
