-- ===== src/Service/Stream/Delivered.antt =====
-- What the consumer of a stream of items gets.
use service_plane.Prelude.{
  ℕ, ◌+◌, ◌<◌, ◌≡◌, ◌≢◌, ◌↔◌, refl, ap, subst, inl, inr, false, Option, none, some, List, [], ◌∷◌,
  ◌++◌, arith,
}
use service_plane.Prelude.Tests.{Bool-cases}
use service_plane.Prelude.Lists.{All, All-append}
use service_plane.Prelude.Text.{Text}
use service_plane.Prelude.Value.{Value}
use service_plane.Shared.Message.{stream_deadline}
use service_plane.Shared.Errors.{ErrorInfo, error_info, timeout_error_of}
use service_plane.Service.Reply.{
  Thrown, own, foreign, type_error, Reply, value, raised, Reply-cases,
}
use service_plane.Service.Schema.{Schema, validate_ability_value}
use service_plane.Service.Handler.{handler_failure, foreign_failure}
use service_plane.Service.Stream.{
  Next, item, done, broke, Readable, readable, closed, errored, Delivery, ItemStream, new_stream,
  StreamEvent, pull_at, source_gives, consumer_cancels, fail, start_pull, enqueue, finish, end_pull,
  cancel, stream_step, stream_run, failed_state, is_past,
}

-- An error of the program, or one that carries its taxonomy.
abbrev pub IsReplaced : Thrown → Type 0
IsReplaced (own e) = Unit
IsReplaced (foreign error) = (info : ErrorInfo) × (error_info error ≡ some info)
IsReplaced type_error = ⊥

foreign_failure-IsReplaced :
    (name : Text) (v : Value) (o : Option ErrorInfo)
    → error_info v ≡ o
    → IsReplaced (foreign_failure name v o)
foreign_failure-IsReplaced name v none h = tt
foreign_failure-IsReplaced name v (some info) h = (info, h)

handler_failure-IsReplaced : (name : Text) (t : Thrown) → IsReplaced (handler_failure name t)
unfolding handler_failure
handler_failure-IsReplaced name (own e) = tt
handler_failure-IsReplaced name type_error = tt
handler_failure-IsReplaced name (foreign v) = foreign_failure-IsReplaced name v (error_info v) refl

abbrev pub IsBefore : Option ℕ → ℕ → Type 0
IsBefore none now = Unit
IsBefore (some deadline) now = now < deadline

module _ (deadline_at : Option ℕ) (schema : Schema) (name : Text) where
  -- The schema accepted the item, which was pulled before the deadline.
  pub record IsDelivery (d : Delivery) : Type 0 where
    pub accepted : validate_ability_value (schema d.given) name 500 ≡ value d.validated
    pub in_time : IsBefore deadline_at d.pulled_at

  -- What a state of the stream says: after an error the source has been released.
  abbrev pub IsSettled : Readable → ℕ → Type 0
  IsSettled readable cancels = cancels ≡ 0
  IsSettled closed cancels = Unit
  IsSettled (errored t) cancels = IsReplaced t × (0 < cancels)

  abbrev InTime : Option ℕ → Type 0
  InTime none = Unit
  InTime (some now) = IsBefore deadline_at now

  pub record IsStream (s : ItemStream) : Type 0 where
    pub items : All IsDelivery s.delivered
    pub settled : IsSettled s.state s.cancels
    pub pulled : InTime s.pulling

  failed-IsSettled :
      (state : Readable) (t : Thrown) (cancels : ℕ)
      → IsSettled state cancels
      → IsReplaced t
      → IsSettled (failed_state state t) (cancels + 1)
  failed-IsSettled readable t cancels h r = (r, omega arith)
  failed-IsSettled closed t cancels h r = tt
  failed-IsSettled (errored u) t cancels h r = (h.0, omega arith)

  fail-IsStream :
      (t : Thrown) (s : ItemStream) → IsStream s → IsStream (fail deadline_at schema name t s)
  unfolding fail
  fail-IsStream t s h = record {
    items = h.items;
    settled =
        failed-IsSettled s.state (handler_failure name t) s.cancels h.settled
          (handler_failure-IsReplaced name t);
    pulled = tt;
  }

  before-pull : (now : ℕ) → is_past deadline_at now ≡ false → InTime (some now)
  before-pull now h = by_deadline deadline_at h
    where
      by_deadline : (d : Option ℕ) → is_past d now ≡ false → IsBefore d now
      by_deadline none h = tt
      by_deadline (some deadline) h = ground arith

  start_pull-IsStream :
      (now : ℕ) (state : Readable) (pulling : Option ℕ) (s : ItemStream)
      → IsStream s
      → IsStream (start_pull deadline_at schema name now state pulling s)
  unfolding start_pull
  start_pull-IsStream now readable none s h = elim (Bool-cases (is_past deadline_at now)) [
    | inl past ↦ rw past (fail-IsStream (own (timeout_error_of (stream_deadline name))) s h)
    | inr in_time ↦
        rw in_time
          (record { items = h.items; settled = h.settled; pulled = before-pull now in_time })
  ]
  start_pull-IsStream now closed pulling s h = h
  start_pull-IsStream now (errored t) pulling s h = h
  start_pull-IsStream now readable (some before) s h = h

  enqueue-IsStream :
      (now : ℕ) (given : Value) (state : Readable) (reply : Reply Value) (s : ItemStream)
      → InTime (some now)
      → validate_ability_value (schema given) name 500 ≡ reply
      → IsStream s
      → IsStream (enqueue deadline_at schema name now given state reply s)
  unfolding enqueue
  enqueue-IsStream now given readable (value v) s t e h = record {
    items =
        All-append IsDelivery s.delivered
          (record { pulled_at = now; given = given; validated = v } ∷ []) h.items
          (record { accepted = e; in_time = t }, tt);
    settled = h.settled;
    pulled = tt;
  }
  enqueue-IsStream now given closed (value v) s t e h = fail-IsStream type_error s h
  enqueue-IsStream now given (errored u) (value v) s t e h = fail-IsStream type_error s h
  enqueue-IsStream now given readable (raised u) s t e h = fail-IsStream u s h
  enqueue-IsStream now given closed (raised u) s t e h = fail-IsStream u s h
  enqueue-IsStream now given (errored w) (raised u) s t e h = fail-IsStream u s h

  finish-IsStream :
      (state : Readable) (s : ItemStream)
      → IsStream s
      → IsStream (finish deadline_at schema name state s)
  unfolding finish
  finish-IsStream readable s h = record { items = h.items; settled = tt; pulled = tt }
  finish-IsStream closed s h = fail-IsStream type_error s h
  finish-IsStream (errored t) s h = fail-IsStream type_error s h

  end_pull-IsStream :
      (next : Next) (pulling : Option ℕ) (s : ItemStream)
      → s.pulling ≡ pulling
      → IsStream s
      → IsStream (end_pull deadline_at schema name next pulling s)
  unfolding end_pull
  end_pull-IsStream (item v) none s e h = h
  end_pull-IsStream done none s e h = h
  end_pull-IsStream (broke t) none s e h = h
  end_pull-IsStream (item v) (some now) s e h =
      enqueue-IsStream now v s.state (validate_ability_value (schema v) name 500) s
        (subst InTime e h.pulled) refl h
  end_pull-IsStream done (some now) s e h = finish-IsStream s.state s h
  end_pull-IsStream (broke t) (some now) s e h = fail-IsStream t s h

  cancel-IsStream :
      (state : Readable) (s : ItemStream)
      → IsStream s
      → IsStream (cancel deadline_at schema name state s)
  unfolding cancel
  cancel-IsStream readable s h = record { items = h.items; settled = tt; pulled = h.pulled }
  cancel-IsStream closed s h = h
  cancel-IsStream (errored t) s h = h

  stream_step-IsStream :
      (e : StreamEvent) (s : ItemStream)
      → IsStream s
      → IsStream (stream_step deadline_at schema name e s)
  unfolding stream_step
  stream_step-IsStream (pull_at now) s h = start_pull-IsStream now s.state s.pulling s h
  stream_step-IsStream (source_gives next) s h = end_pull-IsStream next s.pulling s refl h
  stream_step-IsStream consumer_cancels s h = cancel-IsStream s.state s h

  stream_run_from-IsStream :
      (es : List StreamEvent) (s : ItemStream)
      → IsStream s
      → IsStream (stream_run deadline_at schema name es s)
  unfolding stream_run
  stream_run_from-IsStream [] s h = h
  stream_run_from-IsStream (e ∷ es) s h =
      stream_run_from-IsStream es (stream_step deadline_at schema name e s)
        (stream_step-IsStream e s h)

-- However pulls, answers of the source and a cancellation interleave, every item that the consumer of a
-- stream has got was accepted by the output schema and pulled before the caller's deadline; and where the
-- stream has failed, the source has been released, and the consumer sees an error of the program or one
-- that carries its taxonomy.
pub stream_run-IsStream :
    (deadline_at : Option ℕ) (schema : Schema) (name : Text) (es : List StreamEvent)
    → IsStream deadline_at schema name (stream_run deadline_at schema name es new_stream)
stream_run-IsStream deadline_at schema name es =
    stream_run_from-IsStream deadline_at schema name es new_stream
      (record { items = tt; settled = refl; pulled = tt })

append_ne {ℓ} : {A : Type ℓ} (xs : List A) (x : A) → xs ≢ xs ++ x ∷ []
append_ne [] x h = cc
append_ne (y ∷ ys) x h = append_ne ys x (ground arith)

last_eq {ℓ} : {A : Type ℓ} (xs : List A) (x y : A) → xs ++ x ∷ [] ≡ xs ++ y ∷ [] → x ≡ y
last_eq [] x y h = cc
last_eq (z ∷ zs) x y h = last_eq zs x y cc

-- An item that the source of an open stream gives to a pull is delivered exactly when the pull came before
-- the caller's deadline and the output schema accepts the item; what is delivered is what the schema makes
-- of it, after all that was delivered before.
pub stream_run-delivers_iff :
    (deadline_at : Option ℕ) (schema : Schema) (name : Text) (before : List Delivery) (now : ℕ)
    (given v : Value)
    → ((stream_run deadline_at schema name
          (pull_at now ∷ source_gives (item given) ∷ [])
          (record { state = readable; pulling = none; delivered = before; cancels = 0 })).delivered
        ≡ before ++ record { pulled_at = now; given = given; validated = v } ∷ [])
      ↔ (is_past deadline_at now ≡ false)
        × (validate_ability_value (schema given) name 500 ≡ value v)
unfolding stream_run stream_step start_pull end_pull enqueue fail
stream_run-delivers_iff deadline_at schema name before now given v =
    elim (Bool-cases (is_past deadline_at now)) [
      | inl past ↦ rw past (λ h. elim (append_ne before _ h) [ ], λ h. cc)
      | inr in_time ↦
          rw in_time (elim (Reply-cases (validate_ability_value (schema given) name 500)) [
            | inl (u, accepted) ↦ rw accepted (
              λ h. (refl, ap (λ d. value d.validated) (last_eq before _ _ h)),
              λ h.
                  ap (λ w. before ++ record { pulled_at = now; given = given; validated = w } ∷ [])
                    cc,
            )
            | inr (t, refused) ↦ rw refused (λ h. elim (append_ne before _ h) [ ], λ h. cc)
          ])
    ]
