-- ===== src/Service/Stream.antt =====
-- validatedAbilityItemStream of src/service/discovery.ts: the stream that a streaming method returns, as a
-- run over what its consumer asks and what the source of the handler answers.
pub mod Delivered
use service_plane.Prelude.{ℕ, ◌+◌, Bool, true, false, Option, none, some, List, [], ◌∷◌, ◌++◌}
use service_plane.Prelude.Tests.{leb, if◌then◌else◌}
use service_plane.Prelude.Text.{Text}
use service_plane.Prelude.Value.{Value}
use service_plane.Shared.Message.{stream_deadline}
use service_plane.Shared.Errors.{timeout_error_of}
use service_plane.Service.Reply.{Thrown, own, type_error, Reply, value, raised}
use service_plane.Service.Schema.{Schema, validate_ability_value}
use service_plane.Service.Handler.{handler_failure}

-- What `puller.next()` gives: an item, the end, or an error.
pub data Next : Type 0 where
  item : Value → Next
  done : Next
  broke : Thrown → Next

-- The state of the ReadableStream for its consumer.
pub data Readable : Type 0 where
  readable closed : Readable
  errored : Thrown → Readable

-- An item that was enqueued: when it was pulled, what the source gave and what the schema made of it.
pub record Delivery : Type 0 where
  pub pulled_at : ℕ
  pub given : Value
  pub validated : Value

-- `pulling` holds the time of the pull that waits for the source, `cancels` counts the calls of
-- `puller.cancel`.
pub record ItemStream : Type 0 where
  pub state : Readable
  pub pulling : Option ℕ
  pub delivered : List Delivery
  pub cancels : ℕ

abbrev pub new_stream : ItemStream
new_stream = record { state = readable; pulling = none; delivered = []; cancels = 0 }

-- The consumer asks for an item at a time, the source answers the pull that waits, or the consumer
-- cancels.
pub data StreamEvent : Type 0 where
  pull_at : ℕ → StreamEvent
  source_gives : Next → StreamEvent
  consumer_cancels : StreamEvent

abbrev pub is_past : Option ℕ → ℕ → Bool
is_past none now = false
is_past (some deadline) now = leb deadline now

-- `puller.cancel(error); throw …`: a stream that its consumer has cancelled stays closed.
abbrev pub failed_state : Readable → Thrown → Readable
failed_state readable t = errored t
failed_state other t = other

module _ (deadline_at : Option ℕ) (schema : Schema) (name : Text) where
  -- The `catch` of `pull`.
  unfoldable pub fail : Thrown → ItemStream → ItemStream
  fail error s = record s {
    state = failed_state s.state (handler_failure name error);
    pulling = none;
    cancels = s.cancels + 1;
  }

  -- `pull(controller)` up to the answer of the source
  unfoldable pub start_pull : ℕ → Readable → Option ℕ → ItemStream → ItemStream
  unfolding fail
  start_pull now readable none s =
      if is_past deadline_at now
      then fail (own (timeout_error_of (stream_deadline name))) s
      else record s { pulling = some now }
  start_pull now state pulling s = s

  -- `controller.enqueue(value)` and `controller.close()` throw where the stream is closed.
  unfoldable pub enqueue : ℕ → Value → Readable → Reply Value → ItemStream → ItemStream
  unfolding fail
  enqueue now given readable (value v) s = record s {
    pulling = none;
    delivered = s.delivered ++ record { pulled_at = now; given = given; validated = v } ∷ [];
  }
  enqueue now given closed (value v) s = fail type_error s
  enqueue now given (errored t) (value v) s = fail type_error s
  enqueue now given state (raised t) s = fail t s

  unfoldable pub finish : Readable → ItemStream → ItemStream
  unfolding fail
  finish readable s = record s { state = closed; pulling = none }
  finish state s = fail type_error s

  -- The rest of `pull(controller)`.
  unfoldable pub end_pull : Next → Option ℕ → ItemStream → ItemStream
  unfolding enqueue finish fail
  end_pull next none s = s
  end_pull (item v) (some now) s =
      enqueue now v s.state (validate_ability_value (schema v) name 500) s
  end_pull done (some now) s = finish s.state s
  end_pull (broke t) (some now) s = fail t s

  -- `cancel(reason)`
  unfoldable pub cancel : Readable → ItemStream → ItemStream
  cancel readable s = record s { state = closed; cancels = s.cancels + 1 }
  cancel state s = s

  unfoldable pub stream_step : StreamEvent → ItemStream → ItemStream
  unfolding start_pull end_pull cancel
  stream_step (pull_at now) s = start_pull now s.state s.pulling s
  stream_step (source_gives next) s = end_pull next s.pulling s
  stream_step consumer_cancels s = cancel s.state s

  unfoldable pub stream_run : List StreamEvent → ItemStream → ItemStream
  unfolding stream_step
  stream_run [] s = s
  stream_run (e ∷ es) s = stream_run es (stream_step e s)
