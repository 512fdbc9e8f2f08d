-- ===== src/Service/Session.antt =====
-- capabilityRpcSession of src/service/capabilities.ts over a native binding: the variables that its
-- closures share, and its steps from one await to the next. Targets and the promises of openings are
-- numbers; what `await` waits for arrives as an event.
pub mod Released
pub mod Closed
use service_plane.Prelude.{ℕ, suc, Bool, true, false, Option, none, some, List, [], ◌∷◌, ◌++◌}
use service_plane.Prelude.Tests.{nat_eq, if◌then◌else◌}
use service_plane.Prelude.Text.{Text}
use service_plane.Shared.Message.{
  session_disposed, deadline_exhausted, streaming_needs_session, no_method,
}
use service_plane.Shared.Errors.{ServicePlaneError, auth_error, timeout_error_of, or_default}

-- What the promise of an opening waits for, or how it has settled.
pub data Progress : Type 0 where
  awaiting_token awaiting_proof connecting rejected : Progress
  fulfilled : ℕ → Progress

abbrev pub is_running : Progress → Bool
is_running awaiting_token = true
is_running awaiting_proof = true
is_running connecting = true
is_running rejected = false
is_running (fulfilled t) = false

-- `native_binding` holds the number of the promise. `release_pending` is the promise that `dispose` has
-- attached a release to. The rest is what the session does to the world: `latest` is the last opening
-- that was started, and `progress` how far it is; `abandoned` are openings that were still running when
-- another one was started.
pub record NativeSession : Type 0 where
  pub disposed : Bool
  pub native_binding : Option ℕ
  pub native_target : Option ℕ
  pub native_target_disposed : Bool
  pub release_pending : Option ℕ
  pub latest : ℕ
  pub progress : Progress
  pub abandoned : List ℕ
  pub connects : List ℕ
  pub connected : List ℕ
  pub released : List ℕ
  pub invoked : List (ℕ × Text)

abbrev pub new_session : NativeSession
new_session = record {
  disposed = false;
  native_binding = none;
  native_target = none;
  native_target_disposed = false;
  release_pending = none;
  latest = 0;
  progress = rejected;
  abandoned = [];
  connects = [];
  connected = [];
  released = [];
  invoked = [];
}

-- What a call of a method comes to before its next await.
pub data CallResult : Type 0 where
  waiting : ℕ → CallResult
  called : ℕ → Text → CallResult
  thrown : ServicePlaneError → CallResult

-- assertActive()
abbrev disposed_error : ServicePlaneError
disposed_error = auth_error session_disposed 410

-- disposeNativeTarget(target)
unfoldable pub dispose_native_target : ℕ → NativeSession → NativeSession
dispose_native_target target s =
    let kept = record s { native_target = some (or_default s.native_target target) } in
    if s.native_target_disposed
    then kept
    else record kept { native_target_disposed = true; released = s.released ++ target ∷ [] }

-- disposeNativeBinding()
unfoldable pub dispose_native_binding : NativeSession → NativeSession
unfolding dispose_native_target
dispose_native_binding s = elim s.native_target [
  | some target ↦ dispose_native_target target s
  | none ↦ record s { release_pending = s.native_binding }
]

-- dispose(); the variables of a persistent session are not set over a native binding
unfoldable pub dispose : NativeSession → NativeSession
unfolding dispose_native_binding
dispose s =
    if s.disposed
    then s
    else record (dispose_native_binding (record s { disposed = true })) { native_binding = none }

-- What `await` hands on: a call starts, the token, the proof or the target of an opening arrives, an
-- await of it fails, a call that waits for it resumes, the release that waits for it runs, and the
-- session is disposed.
pub data Event : Type 0 where
  call : Text → Event
  token_ready proof_ready await_failed : ℕ → Event
  target_ready : ℕ → ℕ → Event
  call_refused settled : ℕ → Event
  call_resumed : ℕ → Text → Event
  disposal : Event

-- openNativeBinding(), from one await to the next
unfoldable pub after_token : Progress → NativeSession → NativeSession
after_token awaiting_token s = record s {
  progress = if s.disposed then rejected else awaiting_proof;
}
after_token p s = s

unfoldable pub after_proof : Progress → NativeSession → NativeSession
after_proof awaiting_proof s = record s {
  progress = connecting;
  connects = s.connects ++ s.latest ∷ [];
}
after_proof p s = s

unfoldable pub after_connect : ℕ → Progress → NativeSession → NativeSession
unfolding dispose_native_target
after_connect target connecting s =
    let kept = record s {
      native_target = some (or_default s.native_target target);
      connected = s.connected ++ target ∷ [];
    } in
    if s.disposed
    then record (dispose_native_target target kept) { progress = rejected }
    else record kept { progress = fulfilled target }
after_connect target p s = s

unfoldable pub after_failure : NativeSession → NativeSession
after_failure s = if is_running s.progress then record s { progress = rejected } else s

abbrev is_binding : ℕ → Option ℕ → Bool
is_binding opening none = false
is_binding opening (some i) = nat_eq i opening

-- `if (nativeBinding === opening) nativeBinding = undefined`
unfoldable pub after_refusal : ℕ → Progress → NativeSession → NativeSession
after_refusal opening rejected s =
    if is_binding opening s.native_binding then record s { native_binding = none } else s
after_refusal opening p s = s

-- `binding.then(disposeNativeTarget)`
unfoldable pub release_late : ℕ → Progress → NativeSession → NativeSession
unfolding dispose_native_target
release_late opening (fulfilled target) s =
    if is_binding opening s.release_pending
    then dispose_native_target target (record s { release_pending = none })
    else s
release_late opening p s = s

abbrev of_latest : ℕ → NativeSession → NativeSession → NativeSession
of_latest opening s next = if nat_eq opening s.latest then next else s

-- `exhausted` is `exhaustedBudget`, `rejects` the set of `rejectStreamMethods`, and `has_method` says
-- which members of a target are functions.
module _ (exhausted : Bool) (rejects : Text → Bool) (has_method : ℕ → Text → Bool) where
  -- The end of the native branch of `invokeMethod`, from its second `assertActive()` on.
  unfoldable pub call_target : ℕ → Text → NativeSession → NativeSession × CallResult
  call_target target property s =
      if s.disposed
      then (s, thrown disposed_error)
      else if has_method target property
      then (record s { invoked = s.invoked ++ (target, property) ∷ [] }, called target property)
      else (s, thrown (auth_error (no_method property) 500))

  -- `nativeBinding ??= openNativeBinding()`, up to the first await of the opening
  unfoldable pub await_binding : NativeSession → NativeSession × CallResult
  await_binding s = elim s.native_binding [
    | some opening ↦ (s, waiting opening)
    | none ↦ (
      record s {
        native_binding = some (suc s.latest);
        latest = suc s.latest;
        progress = awaiting_token;
        abandoned = if is_running s.progress then s.abandoned ++ s.latest ∷ [] else s.abandoned;
      },
      waiting (suc s.latest),
    )
  ]

  -- invokeMethod(property, args), up to its first await
  unfoldable pub invoke_method : Text → NativeSession → NativeSession × CallResult
  unfolding call_target await_binding
  invoke_method property s =
      if s.disposed
      then (s, thrown disposed_error)
      else if exhausted
      then (s, thrown (timeout_error_of deadline_exhausted))
      else if rejects property
      then (s, thrown (auth_error (streaming_needs_session property) 405))
      else elim s.native_target [
        | some target ↦ call_target target property s
        | none ↦ await_binding s
      ]

  unfoldable pub after_fulfilment : Text → Progress → NativeSession → NativeSession
  unfolding call_target
  after_fulfilment property (fulfilled target) s = (call_target target property s).0
  after_fulfilment property p s = s

  unfoldable pub step : Event → NativeSession → NativeSession
  unfolding invoke_method dispose after_token after_proof after_connect after_failure after_refusal
      after_fulfilment release_late
  step (call property) s = (invoke_method property s).0
  step (token_ready i) s = of_latest i s (after_token s.progress s)
  step (proof_ready i) s = of_latest i s (after_proof s.progress s)
  step (target_ready i target) s = of_latest i s (after_connect target s.progress s)
  step (await_failed i) s = of_latest i s (after_failure s)
  step (call_refused i) s = of_latest i s (after_refusal i s.progress s)
  step (call_resumed i property) s = of_latest i s (after_fulfilment property s.progress s)
  step (settled i) s = of_latest i s (release_late i s.progress s)
  step disposal s = dispose s

  unfoldable pub run : List Event → NativeSession → NativeSession
  unfolding step
  run [] s = s
  run (e ∷ es) s = run es (step e s)
