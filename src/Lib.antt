-- ===== src/Lib.antt =====
-- Service-Plane: a control plane that knows services by what they advertise, mints short-lived capability
-- tokens for calls between them, and opens the calls over REST, RPC and MCP. This library models its core
-- and proves what it relies on. Paths below are from the root of the repository.
--
-- The parts and how they meet. A service publishes a discovery document. The registry fetches and
-- validates the documents and makes the catalog of abilities from them. A caller reaches an ability
-- through the broker, or one method of it through the REST surface, which finds the method and invokes it.
-- Broker and invocation check what the caller may use, choose a transport, work out what is left of the
-- caller's deadline, and open a session; the session gets its token from the capability issuer, which
-- decides by grants. A caller of the token endpoint is known by the assertion or the HMAC with which it
-- signs its request. The service verifies the token, and the proof of possession of a token that is bound
-- to a key.
--
-- Which file models what:
--   Prelude: helpers. Text is JavaScript's string, the list of its UTF-16 code units; Number has the
--     numbers of JavaScript, exactly, with NaN and the infinities; Value is a value of unknown type.
--   Shared.Deadline: src/shared/deadline.ts. Policy, Wire and Race prove of budgets, of their wire form,
--     and of raceDeadline as a run over the events of the call and of its timer.
--   Shared.Errors, Shared.Message, Shared.Result: src/shared/errors.ts; a function that throws returns a
--     Result, and a message is a constructor with what is put into it.
--   Shared.Tokens and its children: src/shared/capability-tokens.ts; Tokens.Verify is
--     verifyCapabilityToken, as the authentication of a token (authenticate), the checks of its claims
--     (check_claims) and the identity that it returns (identity_of).
--   Shared.Proof: verifyCapabilityProof of src/shared/proof-of-possession.ts.
--   Shared.Jwk: the two forms of a key of src/shared/jwk-auth.ts. Shared.Crypto: what hono's JWT functions
--     and WebCrypto do, a parameter of all that uses it.
--   Shared.Types, Shared.Catalog: src/shared/types.ts. Shared.Paths: src/shared/paths.ts.
--     Shared.Idempotency: src/shared/idempotency.ts.
--   Issuer and its children: src/control-plane/capabilities.ts, grants in Issuer and issuing in
--     Issuer.Issue.
--   Broker and its children: src/control-plane/broker.ts. Broker.Connect has the steps of BrokerRoot and
--     BrokeredAbility up to the call of abilitySession, which is an argument. Broker.Class, Attributed and
--     Budget say which callers are services, whom a session acts for and what is left of a budget.
--   Rest and its children: src/control-plane/rest.ts, the matching of routes, the answer to a miss and the
--     reading of a body; Rest.Uri is decodeURIComponent.
--   Registry and its children: src/control-plane/registry.ts; what an endpoint answers is an argument.
--     Registry.Coalesced is the map of running discoveries, as states and steps.
--   Invocation: src/control-plane/invocation.ts.
--   Service and its children: src/service. Service.Declared and Service.Definition: defineAbilityService of
--     src/service/discovery.ts; Service.Published: its discovery document. Service.Handler, Service.Schema:
--     the validating handler; Service.Access: requireScopes and what else decides who may call.
--     Service.Shell: the routes, the native entry and AuthRoot of src/service/service.ts. Service.Session:
--     capabilityRpcSession of src/service/capabilities.ts over a native binding, as states and steps.
--     Service.Reply: what a call gives where it may throw more than the errors of the program.
--     Service.Stream: validatedAbilityItemStream of src/service/discovery.ts, as states and steps.
--   Caller and its children: jwkServiceClientAuth of src/control-plane/caller-auth.ts; Caller.Hmac and its
--     children: hmacServiceClientAuth. Shared.Assertion: the request assertions of src/shared/jwk-auth.ts;
--     Shared.Hmac: src/shared/hmac-auth.ts; Shared.Body: src/shared/request-body.ts. timingSafeEqual is
--     equality of texts; the snapshot of the registry and the time that a timestamp is are arguments.
--   Shared.JsonSchema: src/shared/json-schema.ts. Shared.ConnInfo: normalizeConnInfo of
--     src/shared/conn-info.ts. Issuer.SigningKeys: the memo of src/control-plane/signing-keys.ts.
--   Examples: concrete runs.
--
-- State is passed on: the cache of the registry goes in and comes out of discover, and the time of each
-- step is an argument, in milliseconds. Promises are plain values; a rejected one is an error.
--
-- Bounds and fuel. Numbers of the wire and of options are JsNumber; times and lengths are natural numbers.
-- The decimal digits of a natural number use fuel, one more than the number, which is enough because each
-- round divides it by ten; the loop over the references of a schema uses one round more than the schema has
-- strings. Everything else recurs on its data.
--
-- Not modelled: the token endpoints, and the control plane's shell, which is routing; the P-256 arithmetic
-- that derives signing keys; the merging of query, body and path into the input of a REST call; MCP and
-- OpenAPI; of src/service the sessions over a socket or over HTTP, the
-- token and key set caches, titles, and the texts of a schema's issues. Shared.JsonSchema stands beside the
-- registry and the service, whose validations take the root properties of a schema as an argument.
pub mod Prelude
pub mod Shared
pub mod Issuer
pub mod Broker
pub mod Caller
pub mod Rest
pub mod Registry
pub mod Invocation
pub mod Service
pub mod Examples
