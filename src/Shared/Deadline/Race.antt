-- ===== src/Shared/Deadline/Race.antt =====
-- raceDeadline of src/shared/deadline.ts: which timer is armed, and then what the promise that it
-- returns does, as a run over the events of the call and of the timer.
use service_plane.Prelude.{
  ℕ, ◌+◌, ◌-◌, ◌≤◌, ◌≡◌, refl, ◌⊎◌, Bool, true, false, Option, none, some, List, [], ◌∷◌, ◌++◌,
  arith,
}
use mathlib.Core.List.{append-nil, append_assoc}
use service_plane.Prelude.Tests.{leb, ltb, if◌then◌else◌}
use service_plane.Shared.Errors.{ServicePlaneError}

-- Times are milliseconds of this machine's clock.
pub record RaceDeadlineOptions : Type 0 where
  pub ceiling_error : Option (ℕ → ServicePlaneError)
  pub ceiling_ms : Option ℕ
  pub deadline_at : Option ℕ
  pub deadline_error : ServicePlaneError

-- How the race starts: rejected before it begins, the call itself with no timer, or one timer with
-- the error that it raises.
pub data Start : Type 0 where
  expired : ServicePlaneError → Start
  untimed : Start
  timed : ℕ → ServicePlaneError → Start

-- `deadlineIsNearer || !options.ceilingError ? options.deadlineError() : options.ceilingError(ceiling)`
timer_error : Option (ℕ → ServicePlaneError) → ServicePlaneError → Bool → ℕ → ServicePlaneError
timer_error none deadline nearer ceiling = deadline
timer_error (some e) deadline nearer ceiling = if nearer then deadline else e ceiling

start_race : RaceDeadlineOptions → Option ℕ → Option ℕ → Start
unfolding timer_error
start_race o none none = untimed
start_race o (some remaining) none = timed remaining o.deadline_error
start_race o none (some ceiling) =
    timed ceiling (timer_error o.ceiling_error o.deadline_error false ceiling)
start_race o (some remaining) (some ceiling) =
    let nearer = ltb remaining ceiling in
    timed (if nearer then remaining else ceiling)
      (timer_error o.ceiling_error o.deadline_error nearer ceiling)

-- The part of `raceDeadline` before its promise, at the time `now`.
unfoldable pub race_deadline : ℕ → RaceDeadlineOptions → Start
unfolding start_race
race_deadline now o = elim o.deadline_at [
  | none ↦ start_race o none o.ceiling_ms
  | some at ↦
      if leb at now then expired o.deadline_error else start_race o (some (at - now)) o.ceiling_ms
]

-- What happens to a race: the timer fires, or the call settles.
pub data Event (V F : Type 0) : Type 0 where
  fired : Event V F
  resolved : V → Event V F
  rejected : F → Event V F

pub data Outcome (V F : Type 0) : Type 0 where
  settled : V → Outcome V F
  failed : F → Outcome V F
  timed_out : ServicePlaneError → Outcome V F

-- The state of the promise, of its timer and of its `lost` flag, and the values handed to
-- `discardLateValue`. A race that never had a timer counts as one whose timer is cleared, and one that
-- was rejected before it began as one that is lost.
pub record Race (V F : Type 0) : Type 0 where
  pub outcome : Option (Outcome V F)
  pub lost : Bool
  pub armed : Bool
  pub discarded : List V

module _ {V F : Type 0} where
  -- A promise settles once.
  settle : Outcome V F → Race V F → Race V F
  settle o r = elim r.outcome [ none ↦ record r { outcome = some o } | some first ↦ r ]

  unfoldable pub begin : Start → Race V F
  begin (expired e) = record {
    outcome = some (timed_out e);
    lost = true;
    armed = false;
    discarded = [];
  }
  begin untimed = record { outcome = none; lost = false; armed = false; discarded = [] }
  begin (timed wait e) = record { outcome = none; lost = false; armed = true; discarded = [] }

  -- The callbacks of the timer and of `call.then`; a cleared timer does not fire.
  unfoldable pub step : ServicePlaneError → Event V F → Race V F → Race V F
  unfolding settle
  step e fired r =
      if r.armed then settle (timed_out e) (record r { lost = true; armed = false }) else r
  step e (resolved v) r =
      if r.lost
      then record r { armed = false; discarded = r.discarded ++ v ∷ [] }
      else settle (settled v) (record r { armed = false })
  step e (rejected f) r = settle (failed f) (record r { armed = false })

  unfoldable pub run : ServicePlaneError → List (Event V F) → Race V F → Race V F
  unfolding step
  run e [] r = r
  run e (x ∷ xs) r = run e xs (step e x r)

  -- The values among the events.
  abbrev pub values : List (Event V F) → List V
  values [] = []
  values (resolved v ∷ xs) = v ∷ values xs
  values (_ ∷ xs) = values xs

  run-lost :
      (e d : ServicePlaneError) (xs : List (Event V F)) (old : List V)
      → run e xs
          (record { outcome = some (timed_out d); lost = true; armed = false; discarded = old })
        ≡ record {
          outcome = some (timed_out d);
          lost = true;
          armed = false;
          discarded = old ++ values xs;
        }
  unfolding run
  run-lost e d [] old = simp append-nil
  run-lost e d (fired ∷ xs) old = run-lost e d xs old
  run-lost e d (rejected f ∷ xs) old = run-lost e d xs old
  run-lost e d (resolved v ∷ xs) old = simp (run-lost e d xs (old ++ v ∷ []), append_assoc)

  run-won :
      (e : ServicePlaneError) (xs : List (Event V F)) (o : Outcome V F)
      → run e xs (record { outcome = some o; lost = false; armed = false; discarded = [] })
        ≡ record { outcome = some o; lost = false; armed = false; discarded = [] }
  unfolding run
  run-won e [] o = refl
  run-won e (fired ∷ xs) o = run-won e xs o
  run-won e (rejected f ∷ xs) o = run-won e xs o
  run-won e (resolved v ∷ xs) o = run-won e xs o

  -- What a race ends with, by the event that comes first and the events after it.
  abbrev pub DecidedBy : ServicePlaneError → Event V F → List (Event V F) → Race V F → Type 0
  DecidedBy e fired xs r = (r.outcome ≡ some (timed_out e)) × (r.discarded ≡ values xs)
  DecidedBy e (resolved v) xs r = (r.outcome ≡ some (settled v)) × (r.discarded ≡ [])
  DecidedBy e (rejected f) xs r = (r.outcome ≡ some (failed f)) × (r.discarded ≡ [])

  -- Whoever comes first decides a timed race, and for good: after the timer the outcome is its
  -- error and exactly the values that still arrive are discarded, in order; after the call the
  -- outcome is the call's, and nothing is discarded.
  pub first_event_decides :
      (wait : ℕ) (e : ServicePlaneError) (x : Event V F) (xs : List (Event V F))
      → DecidedBy e x xs (run e (x ∷ xs) (begin (timed wait e)))
  unfolding run begin
  first_event_decides wait e fired xs = rw (run-lost e e xs []) (refl, refl)
  first_event_decides wait e (resolved v) xs = rw (run-won e xs (settled v)) (refl, refl)
  first_event_decides wait e (rejected f) xs = rw (run-won e xs (failed f)) (refl, refl)

abbrev pub WithinCeiling : ℕ → Option ℕ → Type 0
WithinCeiling wait none = Unit
WithinCeiling wait (some ceiling) = wait ≤ ceiling

abbrev pub WithinDeadline : ℕ → ℕ → Option ℕ → Type 0
WithinDeadline now wait none = Unit
WithinDeadline now wait (some at) = now + wait ≤ at

-- An armed timer waits no longer than the ceiling allows and no longer than until the deadline, and
-- one of the two it waits for exactly.
pub race_deadline_bounds :
    (now : ℕ) (o : RaceDeadlineOptions) (wait : ℕ) (e : ServicePlaneError)
    → race_deadline now o ≡ timed wait e
    → WithinCeiling wait o.ceiling_ms
      × WithinDeadline now wait o.deadline_at
      × ((o.ceiling_ms ≡ some wait) ⊎ (o.deadline_at ≡ some (now + wait)))
unfolding race_deadline
race_deadline_bounds now o wait e h = ground arith
