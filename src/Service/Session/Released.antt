-- ===== src/Service/Session/Released.antt =====
-- What a session over a native binding holds open, whatever the order of its calls, of the answers that
-- they wait for, and of its disposal.
use service_plane.Prelude.{
  ℕ, ◌≤◌, ◌≡◌, refl, ◌⊎◌, Bool, true, false, Option, none, some, List, [], ◌∷◌, arith,
}
use service_plane.Prelude.Tests.{if◌then◌else◌}
use service_plane.Prelude.Lists.{length}
use service_plane.Prelude.Text.{Text}
use service_plane.Service.Session.{
  Progress, awaiting_token, awaiting_proof, connecting, rejected, fulfilled, NativeSession,
  new_session, Event, call, token_ready, proof_ready, target_ready, await_failed, call_refused,
  call_resumed, settled, disposal, step, run, after_token, after_proof, after_connect,
  after_failure, after_refusal, after_fulfilment, release_late, dispose, invoke_method,
}

abbrev flag : Bool → Option ℕ → Bool
flag disposed none = false
flag disposed (some t) = disposed

-- How the variables stand to the progress of the last opening.
abbrev Fits : Progress → NativeSession → Type 0
Fits (fulfilled t) s = (s.native_target ≡ some t) × (s.connected ≡ t ∷ [])
Fits rejected s =
    (s.native_target ≡ none) × (s.connected ≡ [])
    ⊎ (t : ℕ) × (s.disposed ≡ true) × (s.native_target ≡ some t) × (s.connected ≡ t ∷ [])
Fits p s =
    (s.native_target ≡ none)
    × (s.connected ≡ [])
    × (s.native_binding ≡ (if s.disposed then none else some s.latest))

record IsTidy (s : NativeSession) : Type 0 where
  fits : Fits s.progress s
  unabandoned : s.abandoned ≡ []
  released : s.released ≡ (if s.disposed then s.connected else [])
  pending : s.disposed ≡ false → s.release_pending ≡ none
  flagged : s.native_target_disposed ≡ flag s.disposed s.native_target

after_token-IsTidy :
    (p : Progress) (s : NativeSession) → s.progress ≡ p → IsTidy s → IsTidy (after_token p s)
unfolding after_token
after_token-IsTidy awaiting_token s q h = ground arith
after_token-IsTidy p s q h = h

after_proof-IsTidy :
    (p : Progress) (s : NativeSession) → s.progress ≡ p → IsTidy s → IsTidy (after_proof p s)
unfolding after_proof
after_proof-IsTidy awaiting_proof s q h = ground arith
after_proof-IsTidy p s q h = h

after_connect-IsTidy :
    (t : ℕ) (p : Progress) (s : NativeSession)
    → s.progress ≡ p
    → IsTidy s
    → IsTidy (after_connect t p s)
unfolding after_connect
after_connect-IsTidy t connecting s q h = ground arith
after_connect-IsTidy t p s q h = h

after_failure-IsTidy : (s : NativeSession) → IsTidy s → IsTidy (after_failure s)
unfolding after_failure
after_failure-IsTidy s h = ground arith

after_refusal-IsTidy :
    (i : ℕ) (p : Progress) (s : NativeSession)
    → s.progress ≡ p
    → IsTidy s
    → IsTidy (after_refusal i p s)
unfolding after_refusal
after_refusal-IsTidy i rejected s q h = ground arith
after_refusal-IsTidy i p s q h = h

release_late-IsTidy :
    (i : ℕ) (p : Progress) (s : NativeSession)
    → s.progress ≡ p
    → IsTidy s
    → IsTidy (release_late i p s)
unfolding release_late
release_late-IsTidy i (fulfilled t) s q h = ground arith
release_late-IsTidy i p s q h = h

dispose-IsTidy : (s : NativeSession) → IsTidy s → IsTidy (dispose s)
unfolding dispose
dispose-IsTidy s h = ground arith

module _ (exhausted : Bool) (rejects : Text → Bool) (has_method : ℕ → Text → Bool) where
  after_fulfilment-IsTidy :
      (m : Text) (p : Progress) (s : NativeSession)
      → IsTidy s
      → IsTidy (after_fulfilment exhausted rejects has_method m p s)
  unfolding after_fulfilment
  after_fulfilment-IsTidy m (fulfilled t) s h = ground arith
  after_fulfilment-IsTidy m p s h = h

  invoke_method-IsTidy :
      (m : Text) (s : NativeSession)
      → IsTidy s
      → IsTidy (invoke_method exhausted rejects has_method m s).0
  unfolding invoke_method
  invoke_method-IsTidy m s h = ground arith

  step-IsTidy :
      (e : Event) (s : NativeSession) → IsTidy s → IsTidy (step exhausted rejects has_method e s)
  unfolding step
  step-IsTidy (call m) s h = invoke_method-IsTidy m s h
  step-IsTidy (token_ready i) s h = ground (arith, after_token-IsTidy s.progress s refl h)
  step-IsTidy (proof_ready i) s h = ground (arith, after_proof-IsTidy s.progress s refl h)
  step-IsTidy (target_ready i t) s h = ground (arith, after_connect-IsTidy t s.progress s refl h)
  step-IsTidy (await_failed i) s h = ground (arith, after_failure-IsTidy s h)
  step-IsTidy (call_refused i) s h = ground (arith, after_refusal-IsTidy i s.progress s refl h)
  step-IsTidy (call_resumed i m) s h = ground (arith, after_fulfilment-IsTidy m s.progress s h)
  step-IsTidy (settled i) s h = ground (arith, release_late-IsTidy i s.progress s refl h)
  step-IsTidy disposal s h = dispose-IsTidy s h

  run-IsTidy :
      (es : List Event) (s : NativeSession)
      → IsTidy s
      → IsTidy (run exhausted rejects has_method es s)
  unfolding run
  run-IsTidy [] s h = h
  run-IsTidy (e ∷ es) s h =
      run-IsTidy es (step exhausted rejects has_method e s) (step-IsTidy e s h)

  connected_once : (p : Progress) (s : NativeSession) → Fits p s → length s.connected ≤ 1
  connected_once (fulfilled t) s h = ground arith
  connected_once rejected s h = ground arith
  connected_once awaiting_token s h = ground arith
  connected_once awaiting_proof s h = ground arith
  connected_once connecting s h = ground arith

-- However the calls of a session over a native binding, the answers that they wait for and its disposal
-- interleave, it obtains at most one target, starts no opening while another one runs, and releases the
-- target exactly once, when it is disposed: never before, and also where the target arrives afterwards.
pub run-IsReleased :
    (exhausted : Bool) (rejects : Text → Bool) (has_method : ℕ → Text → Bool) (es : List Event)
    → let s = run exhausted rejects has_method es new_session in
      (length s.connected ≤ 1)
      × (s.abandoned ≡ [])
      × (s.released ≡ (if s.disposed then s.connected else []))
run-IsReleased exhausted rejects has_method es =
    let s : NativeSession = run exhausted rejects has_method es new_session in
    let h : IsTidy s = run-IsTidy exhausted rejects has_method es new_session (ground arith) in
    (connected_once exhausted rejects has_method s.progress s h.fits, h.unabandoned, h.released)
