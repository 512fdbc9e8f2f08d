-- ===== src/Service/Access.antt =====
-- Who may call: requireScopes and verifyAuthenticationToken of src/service/capabilities.ts, and
-- verifyAbilityAccess of src/service/discovery.ts.
use service_plane.Prelude.{not, Option, none, some, List, [], ◌∷◌}
use service_plane.Prelude.Lists.{is_nil}
use service_plane.Prelude.Text.{Text, includes}
use service_plane.Shared.Message.{missing_scope, services_only, identity_unbound, missing_token}
use service_plane.Shared.Errors.{auth_error}
use service_plane.Shared.Result.{Result, ok, err, ◌>>=◌, ◌>>◌, require}
use service_plane.Shared.Types.{AbilityAccess, plane, service, CapabilityIdentity}
use service_plane.Shared.Crypto.{Crypto}
use service_plane.Shared.Tokens.Verify.{VerifyOptions, verify_capability_token}
use service_plane.Issuer.{normalize_scopes}

-- verifyAbilityAccess(ability, identity), of the ability's id, its access and the caller's class
unfoldable pub verify_ability_access : Text → AbilityAccess → AbilityAccess → Result (Unit {0})
verify_ability_access id plane caller = ok tt
verify_ability_access id service service = ok tt
verify_ability_access id service plane = err (auth_error (services_only id) 403)

-- The loop of `requireScopes`.
unfoldable pub require_each_scope : List Text → List Text → Result (Unit {0})
require_each_scope held [] = ok tt
require_each_scope held (scope ∷ scopes) = do
  require (includes held scope) (auth_error (missing_scope scope) 403)
  require_each_scope held scopes

-- requireScopes(target, ...scopes), of the identity that is bound to the target
unfoldable pub require_scopes : Option CapabilityIdentity → List Text → Result CapabilityIdentity
unfolding require_each_scope
require_scopes none scopes = err (auth_error identity_unbound 401)
require_scopes (some identity) scopes = do
  required ← normalize_scopes scopes 500
  require_each_scope identity.scopes required
  ok identity

-- verifyAuthenticationToken(token, verifier)
unfoldable pub verify_authentication_token :
    Crypto → Text → VerifyOptions → Result CapabilityIdentity
verify_authentication_token crypto token verifier = do
  require (not (is_nil token)) (auth_error missing_token 401)
  verify_capability_token crypto token verifier
