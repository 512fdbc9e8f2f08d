-- ===== src/Issuer.antt =====
-- src/control-plane/capabilities.ts: scopes, grants, signing keys and the issuer that mints capability
-- tokens. The grants of each target are in the child `Grants`, issuing in `Issue`.
pub mod SigningKeys
pub mod Grants
pub mod Issue
use service_plane.Prelude.{ℕ, Bool, true, false, not, Option, none, some, List, [], ◌∷◌, ◌++◌}
use service_plane.Prelude.Tests.{nat_eq, if◌then◌else◌}
use service_plane.Prelude.Lists.{is_nil, any, filter, all}
use service_plane.Prelude.Text.{Text, ◌==◌, trim, includes, unique}
use service_plane.Shared.Message.{
  Message, scopes_empty, scope_empty, wildcard_scope, id_empty, unknown_target, unknown_scope,
  duplicate_service, signing_keys_empty, kid_empty, duplicate_kid, thumbprint_empty,
}
use service_plane.Shared.Errors.{ServicePlaneError, auth_error}
use service_plane.Shared.Result.{Result, ok, err, ◌>>=◌, ◌>>◌, require, map_ok}
use service_plane.Shared.Types.{ServiceGrant, CapabilityCatalog}
use service_plane.Shared.Jwk.{Jwk}

-- normalizeScope(scope, status)
unfoldable pub normalize_scope : ℕ → Text → Result Text
normalize_scope status scope = do
  let normalized = trim scope
  require (not (is_nil normalized)) (auth_error scope_empty status)
  require (not (any (λ c. nat_eq c b'*') normalized)) (auth_error wildcard_scope status)
  ok normalized

-- normalizeScopes(scopes, status); the type of the model already says that they are an array
unfoldable pub normalize_scopes : List Text → ℕ → Result (List Text)
normalize_scopes scopes status = do
  require (not (is_nil scopes)) (auth_error scopes_empty status)
  normalized ← map_ok (normalize_scope status) scopes
  ok (unique normalized)

-- normalizeId(id, field)
unfoldable pub normalize_id : Text → Result Text
normalize_id id = do
  let normalized = trim id
  require (not (is_nil normalized)) (auth_error id_empty 500)
  ok normalized

-- normalizeGrant(grant)
unfoldable pub normalize_grant : ServiceGrant → Result ServiceGrant
normalize_grant grant = do
  caller ← normalize_id grant.caller
  scopes ← normalize_scopes grant.scopes 500
  target ← normalize_id grant.target
  ok (record { caller = caller; scopes = scopes; target = target })

-- defineServiceGrants(definition)
unfoldable pub define_service_grants : List ServiceGrant → Result (List ServiceGrant)
define_service_grants = map_ok normalize_grant

-- normalizeConfirmation(confirmation), of its thumbprint
unfoldable pub normalize_confirmation : Text → Result Text
normalize_confirmation jkt = do
  let trimmed = trim jkt
  require (not (is_nil trimmed)) (auth_error thumbprint_empty 500)
  ok trimmed

-- A `Map` with string keys, in the order of insertion.
module _ {ℓ} {V : Type ℓ} where
  unfoldable pub get : Text → List (Text × V) → Option V
  get k [] = none
  get k ((j, v) ∷ m) = if j == k then some v else get k m

  unfoldable pub put : Text → V → List (Text × V) → List (Text × V)
  put k v [] = (k, v) ∷ []
  put k v ((j, w) ∷ m) = if j == k then (j, v) ∷ m else (j, w) ∷ put k v m

abbrev pub has {ℓ} : {V : Type ℓ} → Option V → Bool
has none = false
has (some v) = true

-- The loop of `capabilityScopesByService`.
scopes_by_service_from :
    List (Text × List Text) → List CapabilityCatalog → Result (List (Text × List Text))
scopes_by_service_from seen [] = ok seen
scopes_by_service_from seen (catalog ∷ rest) = do
  require (not (has (get catalog.service_id seen)))
      (auth_error (duplicate_service catalog.service_id) 500)
  scopes ← map_ok (normalize_scope 500) catalog.scopes
  scopes_by_service_from (put catalog.service_id (unique scopes) seen) rest

-- capabilityScopesByService(capabilities)
unfoldable pub capability_scopes_by_service :
    List CapabilityCatalog → Result (List (Text × List Text))
unfolding scopes_by_service_from
capability_scopes_by_service = scopes_by_service_from []

known_scopes : List Text → List Text → Result (Unit {0})
known_scopes known [] = ok tt
known_scopes known (scope ∷ scopes) = do
  require (includes known scope) (auth_error (unknown_scope scope) 500)
  known_scopes known scopes

target_scopes : Text → Option (List Text) → Result (List Text)
target_scopes target none = err (auth_error (unknown_target target) 500)
target_scopes target (some scopes) = ok scopes

-- validateGrantScopes(grant, capabilitiesByService)
unfoldable pub validate_grant_scopes : ServiceGrant → List (Text × List Text) → Result (Unit {0})
unfolding target_scopes known_scopes
validate_grant_scopes grant scopes_by_service = do
  known ← target_scopes grant.target (get grant.target scopes_by_service)
  known_scopes known grant.scopes

pub record ValidatedTargetGrants : Type 0 where
  pub error : Option ServicePlaneError
  pub grants : List ServiceGrant

abbrev pub no_grants : ValidatedTargetGrants
no_grants = record { error = none; grants = [] }

record_validation : ValidatedTargetGrants → ServiceGrant → Result (Unit {0}) → ValidatedTargetGrants
record_validation entry grant (ok _) = record entry { grants = entry.grants ++ grant ∷ [] }
record_validation entry grant (err e) = record { error = some e; grants = [] }

-- One round of the loop of `validateGrantsByTarget` on the entry of the grant's target: an entry that
-- has failed stays as it is.
unfoldable pub add_grant :
    List (Text × List Text) → ValidatedTargetGrants → ServiceGrant → ValidatedTargetGrants
unfolding record_validation
add_grant scopes_by_service entry grant = elim entry.error [
  | some e ↦ entry
  | none ↦ record_validation entry grant (validate_grant_scopes grant scopes_by_service)
]

abbrev pub entry_or_new : Option ValidatedTargetGrants → ValidatedTargetGrants
entry_or_new none = no_grants
entry_or_new (some entry) = entry

abbrev pub GrantsByTarget : Type 0
GrantsByTarget = List (Text × ValidatedTargetGrants)

-- The loop of `validateGrantsByTarget`.
unfoldable pub validate_grants_from :
    List (Text × List Text) → GrantsByTarget → List ServiceGrant → Result GrantsByTarget
validate_grants_from scopes_by_service by_target [] = ok by_target
validate_grants_from scopes_by_service by_target (grant ∷ grants) = do
  normalized ← normalize_grant grant
  let entry = entry_or_new (get normalized.target by_target)
  validate_grants_from scopes_by_service
      (put normalized.target (add_grant scopes_by_service entry normalized) by_target) grants

-- validateGrantsByTarget(grants, capabilitiesByService)
unfoldable pub validate_grants_by_target :
    List ServiceGrant → List (Text × List Text) → Result GrantsByTarget
unfolding validate_grants_from
validate_grants_by_target grants scopes_by_service =
    validate_grants_from scopes_by_service [] grants

usable_grants : Option ValidatedTargetGrants → Result (List ServiceGrant)
usable_grants none = ok []
usable_grants (some entry) = elim entry.error [ none ↦ ok entry.grants | some e ↦ err e ]

-- grantsForTarget(byTarget, target)
unfoldable pub grants_for_target : GrantsByTarget → Text → Result (List ServiceGrant)
unfolding usable_grants
grants_for_target by_target target = usable_grants (get target by_target)

-- isGranted(grants, caller, scopes)
unfoldable pub is_granted : List ServiceGrant → Text → List Text → Bool
is_granted grants caller scopes =
    let matching = filter (λ (grant : ServiceGrant). grant.caller == caller) grants in
    all (λ scope. any (λ (grant : ServiceGrant). includes grant.scopes scope) matching) scopes

abbrev kid_text : Option Text → Text
kid_text none = []
kid_text (some kid) = trim kid

-- The loop of `normalizeSigningJwks`.
normalize_signing_jwks_from : List Text → List Jwk → Result (List Jwk)
normalize_signing_jwks_from seen [] = ok []
normalize_signing_jwks_from seen (jwk ∷ jwks) = do
  let kid = kid_text jwk.kid
  require (not (is_nil kid)) (auth_error kid_empty 500)
  require (not (includes seen kid)) (auth_error (duplicate_kid kid) 500)
  rest ← normalize_signing_jwks_from (kid ∷ seen) jwks
  ok (record jwk { kid = some kid } ∷ rest)

-- normalizeSigningJwks(privateJwks)
unfoldable pub normalize_signing_jwks : List Jwk → Result (List Jwk)
unfolding normalize_signing_jwks_from
normalize_signing_jwks jwks = do
  require (not (is_nil jwks)) (auth_error signing_keys_empty 500)
  normalize_signing_jwks_from [] jwks
