-- ===== src/Service/Session/Closed.antt =====
-- A session over a native binding after its disposal.
use service_plane.Prelude.{ℕ, ◌≡◌, Bool, true, List, [], ◌∷◌, arith}
use service_plane.Prelude.Text.{Text}
use service_plane.Shared.Message.{session_disposed}
use service_plane.Shared.Errors.{auth_error}
use service_plane.Service.Session.{
  Progress, awaiting_token, awaiting_proof, connecting, rejected, fulfilled, NativeSession, Event,
  call, token_ready, proof_ready, target_ready, await_failed, call_refused, call_resumed, settled,
  disposal, thrown, step, run, after_token, after_proof, after_connect, after_refusal,
  after_fulfilment, release_late, invoke_method,
}

-- What a disposed session may no longer change.
abbrev pub StaysClosed : NativeSession → NativeSession → Type 0
StaysClosed s t = (t.disposed ≡ true) × (t.invoked ≡ s.invoked) × (t.latest ≡ s.latest)

after_token-StaysClosed :
    (p : Progress) (s : NativeSession) → s.disposed ≡ true → StaysClosed s (after_token p s)
unfolding after_token
after_token-StaysClosed awaiting_token s h = ground arith
after_token-StaysClosed p s h = ground arith

after_proof-StaysClosed :
    (p : Progress) (s : NativeSession) → s.disposed ≡ true → StaysClosed s (after_proof p s)
unfolding after_proof
after_proof-StaysClosed awaiting_proof s h = ground arith
after_proof-StaysClosed p s h = ground arith

after_connect-StaysClosed :
    (t : ℕ) (p : Progress) (s : NativeSession)
    → s.disposed ≡ true
    → StaysClosed s (after_connect t p s)
unfolding after_connect
after_connect-StaysClosed t connecting s h = ground arith
after_connect-StaysClosed t p s h = ground arith

after_refusal-StaysClosed :
    (i : ℕ) (p : Progress) (s : NativeSession)
    → s.disposed ≡ true
    → StaysClosed s (after_refusal i p s)
unfolding after_refusal
after_refusal-StaysClosed i rejected s h = ground arith
after_refusal-StaysClosed i p s h = ground arith

release_late-StaysClosed :
    (i : ℕ) (p : Progress) (s : NativeSession)
    → s.disposed ≡ true
    → StaysClosed s (release_late i p s)
unfolding release_late
release_late-StaysClosed i (fulfilled t) s h = ground arith
release_late-StaysClosed i p s h = ground arith

module _ (exhausted : Bool) (rejects : Text → Bool) (has_method : ℕ → Text → Bool) where
  after_fulfilment-StaysClosed :
      (m : Text) (p : Progress) (s : NativeSession)
      → s.disposed ≡ true
      → StaysClosed s (after_fulfilment exhausted rejects has_method m p s)
  unfolding after_fulfilment
  after_fulfilment-StaysClosed m (fulfilled t) s h = ground arith
  after_fulfilment-StaysClosed m p s h = ground arith

  step-StaysClosed :
      (e : Event) (s : NativeSession)
      → s.disposed ≡ true
      → StaysClosed s (step exhausted rejects has_method e s)
  unfolding step
  step-StaysClosed (call m) s h = ground arith
  step-StaysClosed (token_ready i) s h = ground (arith, after_token-StaysClosed s.progress s h)
  step-StaysClosed (proof_ready i) s h = ground (arith, after_proof-StaysClosed s.progress s h)
  step-StaysClosed (target_ready i t) s h =
      ground (arith, after_connect-StaysClosed t s.progress s h)
  step-StaysClosed (await_failed i) s h = ground arith
  step-StaysClosed (call_refused i) s h = ground (arith, after_refusal-StaysClosed i s.progress s h)
  step-StaysClosed (call_resumed i m) s h =
      ground (arith, after_fulfilment-StaysClosed m s.progress s h)
  step-StaysClosed (settled i) s h = ground (arith, release_late-StaysClosed i s.progress s h)
  step-StaysClosed disposal s h = ground arith

-- Once a session over a native binding is disposed, nothing that happens later makes it call a method of
-- its target or start another opening, and every call of a method on it is answered with status 410.
pub run-StaysClosed :
    (exhausted : Bool) (rejects : Text → Bool) (has_method : ℕ → Text → Bool) (es : List Event)
    (s : NativeSession) (m : Text)
    → s.disposed ≡ true
    → let t = run exhausted rejects has_method es s in
      StaysClosed s t
      × ((invoke_method exhausted rejects has_method m t).1
          ≡ thrown (auth_error session_disposed 410))
unfolding run invoke_method
run-StaysClosed exhausted rejects has_method [] s m h = ground arith
run-StaysClosed exhausted rejects has_method (e ∷ es) s m h =
    let t : NativeSession = step exhausted rejects has_method e s in
    let k : StaysClosed s t = step-StaysClosed exhausted rejects has_method e s h in
    ground (arith, k, run-StaysClosed exhausted rejects has_method es t m k.0)
