-- ===== src/Issuer/Grants.antt =====
-- The grants of a target, as the code gathers them in one pass over all grants, against a description
-- of what each target's grants are.
use service_plane.Prelude.{
  ◌≡◌, refl, ◌↔◌, ◌⊎◌, inl, inr, true, Option, none, some, List, [], ◌∷◌, ◌++◌, arith, ap, ◌∙◌,
}
use mathlib.Core.List.{append_assoc, append-nil}
use service_plane.Prelude.Tests.{Bool-cases, if◌then◌else◌}
use service_plane.Prelude.Lists.{All, filter, any, all}
use service_plane.Prelude.Text.{Text, ◌==◌, eq_iff, In, includes, includes_iff}
use service_plane.Shared.Errors.{ServicePlaneError}
use service_plane.Shared.Result.{Result, ok, err, ◌>>◌, map_ok, Result-cases}
use service_plane.Shared.Types.{ServiceGrant}
use service_plane.Issuer.{
  get, put, define_service_grants, ValidatedTargetGrants, no_grants, entry_or_new, GrantsByTarget,
  normalize_grant, validate_grant_scopes, add_grant, validate_grants_from,
  validate_grants_by_target, usable_grants, grants_for_target, is_granted,
}

pub get-put :
    {V : Type 0} (k j : Text) (v : V) (m : List (Text × V))
    → get j (put k v m) ≡ (if k == j then some v else get j m)
unfolding get put
get-put k j v [] = refl
get-put k j v ((i, w) ∷ m) = ground (arith, eq_iff k j, eq_iff i k, eq_iff i j, get-put k j v m)

abbrev pub of_target : Text → List ServiceGrant → List ServiceGrant
of_target target = filter (λ (grant : ServiceGrant). grant.target == target)

module _ (scopes : List (Text × List Text)) where
  -- Every grant passes `validateGrantScopes`, or the error of the first that does not.
  pub check_grants : List ServiceGrant → Result (Unit {0})
  check_grants [] = ok tt
  check_grants (grant ∷ grants) = do validate_grant_scopes grant scopes; check_grants grants

  entry_after :
      Text → Option ValidatedTargetGrants → List ServiceGrant → Option ValidatedTargetGrants
  entry_after target entry [] = entry
  entry_after target entry (grant ∷ grants) =
      entry_after target
        (if grant.target == target
          then some (add_grant scopes (entry_or_new entry) grant)
          else entry)
        grants

  entry_put :
      (target : Text) (n : ServiceGrant) (m : GrantsByTarget)
      → get target (put n.target (add_grant scopes (entry_or_new (get n.target m)) n) m) ≡ (
          if n.target == target
          then some (add_grant scopes (entry_or_new (get target m)) n)
          else get target m)
  entry_put target n m = elim (Bool-cases (n.target == target)) [
    | inl same ↦
        let e = (eq_iff n.target target).0 same in
        rw (get-put n.target target (add_grant scopes (entry_or_new (get n.target m)) n) m, same)
          (ap (λ k. some (add_grant scopes (entry_or_new (get k m)) n)) e)
    | inr other ↦
        rw (get-put n.target target (add_grant scopes (entry_or_new (get n.target m)) n) m, other)
  ]

  get-validate_grants_from :
      (target : Text) (m : GrantsByTarget) (grants normalized : List ServiceGrant)
      {m' : GrantsByTarget}
      → map_ok normalize_grant grants ≡ ok normalized
      → validate_grants_from scopes m grants ≡ ok m'
      → get target m' ≡ entry_after target (get target m) normalized
  unfolding validate_grants_from entry_after map_ok
  get-validate_grants_from target m [] normalized h k = ground arith
  get-validate_grants_from target m (grant ∷ grants) [] h k = absurd (ground arith)
  get-validate_grants_from target m (grant ∷ grants) (n ∷ normalized) {m'} h k =
      let named : normalize_grant grant ≡ ok n = ground arith in
      let entry = add_grant scopes (entry_or_new (get n.target m)) n in
      let rest : validate_grants_from scopes (put n.target entry m) grants ≡ ok m' = ground arith in
      get-validate_grants_from target (put n.target entry m) grants normalized (ground arith) rest
      ∙ ap (λ e. entry_after target e normalized) (entry_put target n m)

  -- What an entry gives after it has met these grants of its target.
  abbrev continued :
      Option ServicePlaneError → List ServiceGrant → List ServiceGrant → Result (List ServiceGrant)
  continued none old grants = check_grants grants >> ok (old ++ grants)
  continued (some e) old grants = err e

  add_grant-valid :
      (old : List ServiceGrant) (grant : ServiceGrant)
      → validate_grant_scopes grant scopes ≡ ok tt
      → add_grant scopes (record { error = none; grants = old }) grant
        ≡ record { error = none; grants = old ++ grant ∷ [] }
  unfolding add_grant
  add_grant-valid old grant h = rw h

  add_grant-invalid :
      (old : List ServiceGrant) (grant : ServiceGrant) (e : ServicePlaneError)
      → validate_grant_scopes grant scopes ≡ err e
      → add_grant scopes (record { error = none; grants = old }) grant
        ≡ record { error = some e; grants = [] }
  unfolding add_grant
  add_grant-invalid old grant e h = rw h

  add_grant-failed :
      (old : List ServiceGrant) (grant : ServiceGrant) (e : ServicePlaneError)
      → add_grant scopes (record { error = some e; grants = old }) grant
        ≡ record { error = some e; grants = old }
  unfolding add_grant
  add_grant-failed old grant e = refl

  usable_grants-entry_after :
      (target : Text) (error : Option ServicePlaneError) (old grants : List ServiceGrant)
      → usable_grants (entry_after target (some (record { error = error; grants = old })) grants)
        ≡ continued error old (of_target target grants)
  unfolding usable_grants entry_after filter check_grants
  usable_grants-entry_after target none old [] = rw (append-nil old)
  usable_grants-entry_after target (some e) old [] = refl
  usable_grants-entry_after target none old (grant ∷ grants) =
      elim (Bool-cases (grant.target == target)) [
        | inr other ↦ rw other (usable_grants-entry_after target none old grants)
        | inl same ↦ elim (Result-cases (validate_grant_scopes grant scopes)) [
          | inl (u, valid) ↦
              rw (same, add_grant-valid old grant valid, valid)
                (rw (append_assoc old (grant ∷ []) (of_target target grants)) at
                  (usable_grants-entry_after target none (old ++ grant ∷ []) grants))
          | inr (e, invalid) ↦
              rw (same, add_grant-invalid old grant e invalid, invalid)
                (usable_grants-entry_after target (some e) [] grants)
        ]
      ]
  usable_grants-entry_after target (some e) old (grant ∷ grants) =
      elim (Bool-cases (grant.target == target)) [
        | inr other ↦ rw other (usable_grants-entry_after target (some e) old grants)
        | inl same ↦
            rw (same, add_grant-failed old grant e)
              (usable_grants-entry_after target (some e) old grants)
      ]

  usable_grants-none :
      (target : Text) (grants : List ServiceGrant)
      → usable_grants (entry_after target none grants)
        ≡ usable_grants (entry_after target (some no_grants) grants)
  unfolding usable_grants entry_after
  usable_grants-none target [] = refl
  usable_grants-none target (grant ∷ grants) = elim (Bool-cases (grant.target == target)) [
    | inl same ↦ rw same
    | inr other ↦ rw other (usable_grants-none target grants)
  ]

-- The grants that a target can be asked for depend on its own grants alone: they are those, in order,
-- if the catalog knows the scopes of each, and else the error of the first that it does not know. So a
-- bad grant refuses its whole target, and no other.
pub grants_for_target_lem :
    (scopes : List (Text × List Text)) (grants normalized : List ServiceGrant)
    (by_target : GrantsByTarget) (target : Text)
    → define_service_grants grants ≡ ok normalized
    → validate_grants_by_target grants scopes ≡ ok by_target
    → grants_for_target by_target target
      ≡ (check_grants scopes (of_target target normalized) >> ok (of_target target normalized))
unfolding grants_for_target validate_grants_by_target get define_service_grants
grants_for_target_lem scopes grants normalized by_target target h k =
    ap usable_grants (get-validate_grants_from scopes target [] grants normalized h k)
    ∙ usable_grants-none scopes target normalized
    ∙ usable_grants-entry_after scopes target none [] normalized

-- A grant of a list that names the caller and the scope.
abbrev pub Granted : Text → Text → List ServiceGrant → Type 0
Granted caller scope [] = ⊥
Granted caller scope (grant ∷ grants) =
    ((grant.caller ≡ caller) × In scope grant.scopes) ⊎ Granted caller scope grants

any_grant_iff :
    (caller scope : Text) (grants : List ServiceGrant)
    → (any
          (λ (grant : ServiceGrant). includes grant.scopes scope)
          (filter (λ (grant : ServiceGrant). grant.caller == caller) grants)
        ≡ true)
      ↔ Granted caller scope grants
unfolding any filter
any_grant_iff caller scope [] = (λ h. ground arith, λ h. absurd h)
any_grant_iff caller scope (grant ∷ grants) = ground (
  arith,
  eq_iff grant.caller caller,
  includes_iff grant.scopes scope,
  any_grant_iff caller scope grants,
)

-- A caller is granted scopes by a list of grants exactly when each of them stands in some grant of
-- that caller in the list.
pub is_granted_iff :
    (grants : List ServiceGrant) (caller : Text) (scopes : List Text)
    → (is_granted grants caller scopes ≡ true) ↔ All (λ scope. Granted caller scope grants) scopes
unfolding is_granted all
is_granted_iff grants caller [] = (λ _. tt, λ _. refl)
is_granted_iff grants caller (scope ∷ scopes) =
    ground (arith, any_grant_iff caller scope grants, is_granted_iff grants caller scopes)
