-- ===== src/Examples/Schemas.antt =====
-- Runs of a stream of items and of the resolution of a schema's root.
use service_plane.Prelude.{◌≡◌, ◌↔◌, false, none, some, List, [], ◌∷◌, ◌++◌, arith}
use service_plane.Prelude.Text.{Text, text}
use service_plane.Prelude.Number.{JsNumber, nan}
use service_plane.Prelude.Value.{Value, str, obj, field, end}
use service_plane.Service.Reply.{value}
use service_plane.Service.Schema.{Schema, answered, validate_ability_value}
use service_plane.Service.Stream.{
  item, StreamEvent, pull_at, source_gives, consumer_cancels, new_stream, readable, stream_run,
  is_past,
}
use service_plane.Service.Stream.Delivered.{IsStream, stream_run-IsStream, stream_run-delivers_iff}
use service_plane.Shared.JsonSchema.{Target, resolve_local_ref_target}
use service_plane.Shared.JsonSchema.Resolved.{IsTarget, resolve_local_ref_target-IsTarget}

abbrev number_of_none : Text → JsNumber
number_of_none s = nan

-- A root that refers to a definition, and one that refers to itself through it.
abbrev referring_schema : Value
referring_schema = obj (
    field (text "$ref") (str (text "#/d"))
      (field (text "d") (obj (field (text "type") (str (text "object")) end)) end))

abbrev circular_schema : Value
circular_schema = obj (
    field (text "$ref") (str (text "#/d"))
      (field (text "d") (obj (field (text "$ref") (str (text "#/d")) end)) end))

resolve_local_ref_target-IsTarget_example :
    (target : Target) × (resolve_local_ref_target number_of_none 3 circular_schema ≡ some target)
    × IsTarget number_of_none circular_schema target
resolve_local_ref_target-IsTarget_example =
    resolve_local_ref_target-IsTarget number_of_none circular_schema 3 (omega arith)

abbrev accepts_all : Schema
accepts_all v = answered (obj (field (text "value") v end))

abbrev some_events : List StreamEvent
some_events =
    pull_at 5
    ∷ source_gives (item (str (text "a")))
    ∷ pull_at 12
    ∷ source_gives (item (str (text "b")))
    ∷ consumer_cancels
    ∷ []

stream_run-IsStream_example :
    IsStream
      (some 10)
      accepts_all
      (text "m")
      (stream_run (some 10) accepts_all (text "m") some_events new_stream)
stream_run-IsStream_example = stream_run-IsStream (some 10) accepts_all (text "m") some_events

stream_run-delivers_iff_example :
    ((stream_run
        (some 10)
        accepts_all
        (text "m")
        (pull_at 5 ∷ source_gives (item (str (text "a"))) ∷ [])
        (record { state = readable; pulling = none; delivered = []; cancels = 0 })).delivered
      ≡ [] ++ record { pulled_at = 5; given = str (text "a"); validated = str (text "a") } ∷ [])
    ↔ (is_past (some 10) 5 ≡ false)
      × (validate_ability_value (accepts_all (str (text "a"))) (text "m") 500
          ≡ value (str (text "a")))
stream_run-delivers_iff_example =
    stream_run-delivers_iff (some 10) accepts_all (text "m") [] 5 (str (text "a")) (str (text "a"))
