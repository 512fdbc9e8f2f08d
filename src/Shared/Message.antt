-- ===== src/Shared/Message.antt =====
-- The messages of the errors that the program throws, a constructor for each, with what the source
-- puts into it. How a message is spelled is not modelled.
use service_plane.Prelude.{ℕ}
use service_plane.Prelude.Text.{Text}

pub data Message : Type 0 where
  -- an application's own message
  custom : Text → Message
  -- deadline.ts
  bad_timeout_policy : Message
  deadline_exceeded deadline_exhausted : Message
  -- control-plane/capabilities.ts
  scopes_empty scope_empty wildcard_scope bad_ttl grant_denied : Message
  id_empty signing_keys_empty kid_empty subject_of_service_caller bad_caller_access : Message
  thumbprint_empty : Message
  unknown_target unknown_scope duplicate_service duplicate_kid : Text → Message
  -- shared/capability-tokens.ts
  spo_without_act spk_without_act bad_subject bad_claims bad_confirmation bad_actor : Message
  token_too_large bad_token bad_header unknown_kid bad_signature bad_issuer bad_audience : Message
  not_active_yet issued_in_future expired_token proof_required ability_id_required : Message
  bad_encoding missing_token bad_scheme : Message
  missing_scope : Text → Message
  -- control-plane/broker.ts, control-plane/invocation.ts
  no_ability no_transport path_not_relative : Text → Text → Message
  connect_without_scope needs_service_access not_published : Message
  undeclared_scope no_method : Text → Message
  -- control-plane/rest.ts
  ambiguous_route : Text → Message
  bad_max_body body_too_large unsupported_body bad_json body_not_object : Message
  -- shared/proof-of-possession.ts, shared/jwk-auth.ts
  bad_proof proof_key_mismatch bad_proof_signature proof_in_future proof_expired : Message
  proof_lifetime proof_audience proof_ability proof_token bad_proof_claims bad_proof_key : Message
  -- shared/jwk-auth.ts, shared/request-body.ts, control-plane/caller-auth.ts
  missing_assertion bad_assertion_scheme bad_max_request_body request_too_large : Message
  bad_assertion_encoding bad_assertion_claims bad_assertion_header bad_assertion_key : Message
  assertion_caller assertion_audience assertion_request_id assertion_not_active : Message
  assertion_in_future assertion_expired assertion_lifetime assertion_binding bad_auth_limit :
      Message
  bad_assertion_ttl signer_missing assertion_audience_empty : Message
  -- shared/hmac-auth.ts
  missing_hmac bad_hmac_scheme hmac_secret_empty : Message
  -- service/capabilities.ts, service/discovery.ts, service/service.ts
  session_disposed value_empty bad_rest_status no_transport_enabled bad_exposure bad_access :
      Message
  tags_empty bad_resource_uri bad_method_timeout bad_default_timeout bad_schema : Message
  no_capability_catalog no_abilities no_handler missing_scopes no_methods bad_template : Message
  streaming_projection no_session_transport caller_auth_private_key : Message
  bad_path path_with_query bad_rest_method unknown_transport undeclared_method_scope :
      Text → Message
  duplicate_ability duplicate_path reserved_method duplicate_method unknown_path_field :
      Text → Message
  streaming_needs_session unknown_method not_implemented handler_failed : Text → Message
  single_input method_deadline stream_deadline not_iterable handler_disposed : Text → Message
  services_only shared_handler : Text → Message
  method_ceiling : ℕ → Text → Message
  no_schema_value schema_issues schema_threw : Text → Message
  identity_unbound brokered_token_required auth_unconfigured ingress_unconfigured : Message
  transport_disabled ability_not_found : Text → Message
  bad_proof_ttl proof_field_empty proof_needs_ec_key thumbprint_needs_ec : Message
