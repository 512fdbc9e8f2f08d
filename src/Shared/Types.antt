-- ===== src/Shared/Types.antt =====
-- src/shared/types.ts: the types that the components exchange.
use service_plane.Prelude.{ℕ, Option, none, some, List}
use service_plane.Prelude.Tests.{if◌then◌else◌}
use service_plane.Prelude.Text.{Text, text, ◌==◌}
use service_plane.Prelude.Number.{JsNumber}

pub data AbilityAccess : Type 0 where
  plane service : AbilityAccess

pub data AbilityExposure : Type 0 where
  private_exposure published : AbilityExposure

pub data AbilityTransport : Type 0 where
  cloudflare_binding_rpc http_batch websocket : AbilityTransport

abbrev pub access_text : AbilityAccess → Text
access_text plane = text "plane"
access_text service = text "service"

-- isAbilityAccess(value), with the class that it is
unfoldable pub access_of_text : Text → Option AbilityAccess
unfolding ◌==◌
access_of_text s =
    if s == text "plane" then some plane else if s == text "service" then some service else none

pub record CapabilitySubject : Type 0 where
  pub id : Text
  pub kind : Option Text
  pub org_id : Option Text

-- The claims that the issuer decides; `act` and `cnf` hold the `sub` and the `jkt` of their objects.
pub record ClaimsBody : Type 0 where
  pub act : Option Text
  pub aud : Text
  pub cnf : Option Text
  pub iss : Text
  pub scp : List Text
  pub spa : Option AbilityAccess
  pub spb : Option Text
  pub spk : Option Text
  pub spo : Option Text
  pub sub : Text

pub record CapabilityClaims : Type 0 where
  pub body : ClaimsBody
  pub open body use *
  pub exp : JsNumber
  pub iat : JsNumber
  pub jti : Text
  pub nbf : JsNumber

-- `expires_at` is the `exp` claim, in seconds.
pub record CapabilityIdentity : Type 0 where
  pub audience : Text
  pub broker_service_id : Option Text
  pub caller_access : AbilityAccess
  pub confirmation : Option Text
  pub expires_at : JsNumber
  pub issuer : Text
  pub scopes : List Text
  pub service_id : Text
  pub subject : Option CapabilitySubject
  pub token_id : Text

-- `expires_at` is a time in milliseconds.
pub record IssuedCapabilityToken : Type 0 where
  pub expires_at : ℕ
  pub token : Text

pub record ServiceGrant : Type 0 where
  pub caller : Text
  pub scopes : List Text
  pub target : Text

-- The ids of a service's scopes.
pub record CapabilityCatalog : Type 0 where
  pub service_id : Text
  pub scopes : List Text

pub record IssueCapabilityTokenInput : Type 0 where
  pub caller_service_id : Text
  pub confirmation : Option Text
  pub scopes : List Text
  pub subject : Option CapabilitySubject
  pub target_service_id : Text
  pub ttl_seconds : Option JsNumber
