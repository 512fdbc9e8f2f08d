-- ===== src/Service/Definition/Abilities.antt =====
-- What holds of a service whose declaration was accepted.
use service_plane.Prelude.{
  ℕ, ◌≡◌, inl, inr, Bool, true, false, Option, none, some, List, [], ◌∷◌, ◌++◌, map, arith,
}
use service_plane.Prelude.Lists.{All, is_nil, any}
use service_plane.Prelude.Text.{Text, text, In, includes, includes_iff}
use service_plane.Prelude.Number.{
  JsNumber, nan, infinite, finite, pos, negsuc, is_safe_integer, exceeds, floor_of,
}
use service_plane.Prelude.Value.{Value}
use service_plane.Shared.Errors.{or_default}
use service_plane.Shared.Result.{ok, Result-cases}
use service_plane.Shared.Paths.{is_origin_relative_path}
use service_plane.Service.Declared.{
  validate_known_scopes, normalize_declared_path, validate_default_method_timeout_ms,
}
use service_plane.Service.Definition.{
  DeclaredAbility, NormalizedAbility, normalize_methods_from, normalize_ability,
  normalize_abilities_from, known_scopes_of, normalize_abilities, DeclaredService,
  ServiceDefinition, catalog_scopes, define_ability_service, streams, is_session_transport,
}
use service_plane.Service.Definition.Keys.{Distinct, Fresh, Distinct-cons, Fresh-cons}
use service_plane.Service.Definition.Methods.{
  IsSoundMethod, IsTimeout, method_name, normalize_methods-AreMethods,
}
use service_plane.Service.Definition.Routed.{normalize_declared_path-IsRelative}

abbrev pub ability_id : NormalizedAbility → Text
ability_id a = a.id

abbrev pub ability_path : NormalizedAbility → Text
ability_path a = a.path

-- The ids of the scopes that the service's catalog has; without a catalog, none.
abbrev pub scopes_in : Option (List Text) → List Text
scopes_in known = or_default known []

validate_known_scopes-In :
    (scopes : List Text) (known : Option (List Text))
    → validate_known_scopes scopes known ≡ ok tt
    → All (λ scope. In scope (scopes_in known)) scopes
unfolding validate_known_scopes
validate_known_scopes-In [] known h = tt
validate_known_scopes-In (scope ∷ scopes) none h = absurd (ground arith)
validate_known_scopes-In (scope ∷ scopes) (some known) h =
    ground (arith, includes_iff known scope, validate_known_scopes-In scopes (some known))

validate_default-IsTimeout :
    (value : Option JsNumber) (d : Option ℕ)
    → validate_default_method_timeout_ms value ≡ ok d
    → IsTimeout d
unfolding validate_default_method_timeout_ms is_safe_integer exceeds floor_of
validate_default-IsTimeout none d h = ground arith
validate_default-IsTimeout (some nan) d h = ground arith
validate_default-IsTimeout (some (infinite b)) d h = ground arith
validate_default-IsTimeout (some (finite (pos n) f)) d h = ground arith
validate_default-IsTimeout (some (finite (negsuc n) f)) d h = ground arith

module _ (reserved_member : Text → Bool) (root_properties : Value → Option (List Text))
    (encode : Text → Text) (service_id : Text) (known : Option (List Text)) (require_scopes : Bool)
    (service_default : Option ℕ) where
  -- Its scopes are of the catalog, and not none where scopes are required; its methods are of it and have
  -- different names; its path stays on the origin; and where a method streams it has a transport that
  -- carries a session.
  pub record IsSoundAbility (a : NormalizedAbility) : Type 0 where
    pub known_scopes : All (λ scope. In scope (scopes_in known)) a.scopes
    pub scoped : (require_scopes ≡ true) → (is_nil a.scopes ≡ false)
    pub methods :
        All
          (IsSoundMethod reserved_member root_properties encode service_id a.id a.scopes known
            require_scopes service_default)
          a.methods
    pub named : Distinct (map method_name a.methods)
    pub routed : is_origin_relative_path a.path ≡ true
    pub carried : (any streams a.methods ≡ true) → (any is_session_transport a.transports ≡ true)

  module _ (seen_ids seen_paths : List Text) (declared : DeclaredAbility) (a : NormalizedAbility)
      (accepted : normalize_ability reserved_member root_properties encode service_id known
          require_scopes service_default seen_ids seen_paths declared
        ≡ ok a) where
    scopes-validated : validate_known_scopes a.scopes known ≡ ok tt
    unfolding normalize_ability
    scopes-validated = ground arith

    scopes-ne-nil : require_scopes ≡ true → is_nil a.scopes ≡ false
    unfolding normalize_ability
    scopes-ne-nil k = ground arith

    methods-accepted :
        normalize_methods_from reserved_member root_properties encode service_id a.id a.scopes known
          require_scopes service_default [] declared.methods
        ≡ ok a.methods
    unfolding normalize_ability
    methods-accepted = ground arith

    path-accepted :
        normalize_declared_path (or_default declared.path (text "/rpc/" ++ a.id)) ≡ ok a.path
    unfolding normalize_ability
    path-accepted = ground arith

    streams-carried : any streams a.methods ≡ true → any is_session_transport a.transports ≡ true
    unfolding normalize_ability
    streams-carried k = ground arith

    id_fresh : includes seen_ids a.id ≡ false
    unfolding normalize_ability
    id_fresh = ground arith

    path_fresh : includes seen_paths a.path ≡ false
    unfolding normalize_ability
    path_fresh = ground arith

    normalize_ability-IsSoundAbility : IsTimeout service_default → IsSoundAbility a
    normalize_ability-IsSoundAbility k =
        let ms =
          normalize_methods-AreMethods reserved_member root_properties encode service_id a.id
            a.scopes known require_scopes service_default [] declared.methods a.methods k
            methods-accepted in
        record {
          known_scopes = validate_known_scopes-In a.scopes known scopes-validated;
          scoped = scopes-ne-nil;
          methods = ms.0;
          named = ms.1;
          routed = normalize_declared_path-IsRelative _ a.path path-accepted;
          carried = streams-carried;
        }

  abbrev pub AreAbilities : List Text → List Text → List NormalizedAbility → Type 0
  AreAbilities seen_ids seen_paths as' =
      All IsSoundAbility as'
      × Distinct (map ability_id as')
      × Distinct (map ability_path as')
      × Fresh ability_id seen_ids as'
      × Fresh ability_path seen_paths as'

  normalize_abilities_from-AreAbilities :
      (seen_ids seen_paths : List Text) (declared : List DeclaredAbility)
      (abilities : List NormalizedAbility)
      → IsTimeout service_default
      → normalize_abilities_from reserved_member root_properties encode service_id known
          require_scopes service_default seen_ids seen_paths declared
        ≡ ok abilities
      → AreAbilities seen_ids seen_paths abilities
  unfolding normalize_abilities_from
  normalize_abilities_from-AreAbilities seen_ids seen_paths [] abilities k h =
      let e : [] ≡ abilities = ground arith in rw (← e) (tt, tt, tt, tt, tt)
  normalize_abilities_from-AreAbilities seen_ids seen_paths (declared ∷ more) abilities k h =
      elim (Result-cases (
        normalize_ability reserved_member root_properties encode service_id known require_scopes
          service_default seen_ids seen_paths declared)) [
            | inr (e, refused) ↦ absurd (ground arith)
            | inl (a, accepted) ↦
                elim (Result-cases (
                  normalize_abilities_from reserved_member root_properties encode service_id known
                    require_scopes service_default (a.id ∷ seen_ids) (a.path ∷ seen_paths) more)) [
                      | inr (e, refused) ↦ absurd (ground arith)
                      | inl (rest, later) ↦
                          let e : a ∷ rest ≡ abilities = ground arith in
                          let (all, ids, paths, fresh_ids, fresh_paths) =
                            normalize_abilities_from-AreAbilities (a.id ∷ seen_ids)
                              (a.path ∷ seen_paths) more rest k later in
                          rw (← e) (
                            (
                              normalize_ability-IsSoundAbility seen_ids seen_paths declared a
                                  accepted k,
                              all,
                            ),
                            Distinct-cons ability_id seen_ids a rest ids fresh_ids,
                            Distinct-cons ability_path seen_paths a rest paths fresh_paths,
                            Fresh-cons ability_id seen_ids a rest
                                (id_fresh seen_ids seen_paths declared a accepted) fresh_ids,
                            Fresh-cons ability_path seen_paths a rest
                                (path_fresh seen_ids seen_paths declared a accepted) fresh_paths,
                          )
                    ]
          ]

abilities-ne-nil :
    (reserved_member : Text → Bool) (root_properties : Value → Option (List Text))
    (encode : Text → Text) (service_id : Text) (known : Option (List Text)) (require_scopes : Bool)
    (service_default : Option ℕ) (declared : List DeclaredAbility)
    (abilities : List NormalizedAbility)
    → is_nil declared ≡ false
    → normalize_abilities_from reserved_member root_properties encode service_id known
        require_scopes service_default [] [] declared
      ≡ ok abilities
    → is_nil abilities ≡ false
unfolding normalize_abilities_from
abilities-ne-nil reserved_member root_properties encode service_id known require_scopes
      service_default [] abilities h k =
    absurd (ground arith)
abilities-ne-nil reserved_member root_properties encode service_id known require_scopes
      service_default (declared ∷ more) abilities h k =
    ground arith

-- A service whose declaration is accepted has an ability; its abilities have different ids and different
-- paths, which stay on its origin; their scopes are those of its catalog, and each method's are its
-- ability's, with none missing where scopes are required; the methods of an ability have different names;
-- a streaming method has no REST, prompt or resource projection and no timeout, and its ability has a
-- transport that carries a session; every other timeout is one that a timer can keep.
pub define_ability_service-AreAbilities :
    (reserved_member : Text → Bool) (root_properties : Value → Option (List Text))
    (encode : Text → Text) (input : DeclaredService) (service : ServiceDefinition)
    → define_ability_service reserved_member root_properties encode input ≡ ok service
    → (known : Option (List Text)) × (service_default : Option ℕ) × (known_scopes_of reserved_member
          root_properties encode
          (catalog_scopes input.capabilities)
        ≡ ok known)
      × (is_nil service.abilities ≡ false)
      × AreAbilities reserved_member root_properties encode service.id known input.require_scopes
          service_default [] [] service.abilities
unfolding define_ability_service normalize_abilities
define_ability_service-AreAbilities reserved_member root_properties encode input service h =
    elim (Result-cases (
      known_scopes_of reserved_member root_properties encode (catalog_scopes input.capabilities))) [
        | inr (e, refused) ↦ absurd (ground arith)
        | inl (known, catalogued) ↦
            elim (Result-cases (validate_default_method_timeout_ms input.default_timeout)) [
              | inr (e, refused) ↦ absurd (ground arith)
              | inl (service_default, bounded) ↦
                  let all : normalize_abilities_from reserved_member root_properties encode
                        service.id known input.require_scopes service_default [] [] input.abilities
                      ≡ ok service.abilities =
                    ground arith in
                  (
                    known,
                    service_default,
                    catalogued,
                    abilities-ne-nil reserved_member root_properties encode service.id known
                        input.require_scopes service_default input.abilities service.abilities
                        (ground arith) all,
                    normalize_abilities_from-AreAbilities reserved_member root_properties encode
                        service.id known input.require_scopes service_default [] [] input.abilities
                        service.abilities
                        (validate_default-IsTimeout input.default_timeout service_default bounded)
                        all,
                  )
            ]
      ]
