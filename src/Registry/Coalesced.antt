-- ===== src/Registry/Coalesced.antt =====
-- coalescedDiscovery of src/control-plane/registry.ts, for the requests that share one cache: the map
-- of the fills that are running, whose promises are numbered in the order in which they start.
use service_plane.Prelude.{
  ℕ, suc, ◌≡◌, refl, inl, inr, Bool, false, not, Option, none, some, List, [], ◌∷◌, arith,
}
use service_plane.Prelude.Tests.{Bool-cases, nat_eq, if◌then◌else◌}
use service_plane.Prelude.Lists.{All, Among, All-mono, filter}
use service_plane.Prelude.Text.{Text, ◌==◌, eq_iff, eq_refl}
use service_plane.Issuer.{get, put}
use service_plane.Issuer.Grants.{get-put}

-- `in_flight` is `inFlightDiscovery.get(cache)`; `started` counts the fills that have started.
pub record Coalesced : Type 0 where
  pub in_flight : List (Text × ℕ)
  pub started : ℕ

joined : Text → Option ℕ → Coalesced → Coalesced × ℕ
joined key (some running) c = (c, running)
joined key none c =
    (record { in_flight = put key c.started c.in_flight; started = suc c.started }, c.started)

-- coalescedDiscovery(cache, cacheKey, discover): the state after it, and the fill that it returns
unfoldable pub coalesced_discovery : Text → Coalesced → Coalesced × ℕ
unfolding joined
coalesced_discovery key c = joined key (get key c.in_flight) c

remove : Text → List (Text × ℕ) → List (Text × ℕ)
remove key [] = []
remove key ((k, p) ∷ m) = let rest = remove key m in if k == key then rest else (k, p) ∷ rest

is_fill : Option ℕ → ℕ → Bool
is_fill none pending = false
is_fill (some running) pending = nat_eq running pending

-- settle(), of the fill `pending` for the key
unfoldable pub settle_fill : Text → ℕ → Coalesced → Coalesced
unfolding remove is_fill
settle_fill key pending c =
    if is_fill (get key c.in_flight) pending
    then record c { in_flight = remove key c.in_flight }
    else c

abbrev started_fill : Text → Option ℕ → ℕ → List (Text × ℕ) → List (Text × ℕ)
started_fill key (some running) number fills = fills
started_fill key none number fills = (key, number) ∷ fills

-- The states that arise as requests arrive and fills settle, with the fills that have started and not
-- settled; only such a fill settles.
pub data IsReachable : Coalesced → List (Text × ℕ) → Type 0 where
  idle : IsReachable (record { in_flight = []; started = 0 }) []
  arrives :
      {c : Coalesced} {fills : List (Text × ℕ)}
      → (key : Text) → IsReachable c fills
      → IsReachable
          (coalesced_discovery key c).0
          (started_fill key (get key c.in_flight) c.started fills)
  settles :
      {c : Coalesced} {fills : List (Text × ℕ)}
      → (key : Text) (pending : ℕ) → Among (key, pending) fills
      → IsReachable c fills
      → IsReachable
          (settle_fill key pending c)
          (filter (λ (f : Text × ℕ). not (nat_eq f.1 pending)) fills)

get-remove :
    (k j : Text) (m : List (Text × ℕ)) → get j (remove k m) ≡ (if k == j then none else get j m)
unfolding get remove
get-remove k j [] = ground arith
get-remove k j ((i, p) ∷ m) = ground (arith, eq_iff k j, eq_iff i k, eq_iff i j, get-remove k j m)

-- Every running fill is the one in flight for its key.
abbrev InFlight : Coalesced → List (Text × ℕ) → Type 0
InFlight c = All (λ (f : Text × ℕ). get f.0 c.in_flight ≡ some f.1)

All-Among-InFlight :
    (c : Coalesced) (fills : List (Text × ℕ)) (key : Text) (p : ℕ)
    → InFlight c fills
    → Among (key, p) fills
    → get key c.in_flight ≡ some p
All-Among-InFlight c [] key p hs a = absurd a
All-Among-InFlight c (f ∷ fills) key p (h, hs) (inl e) = rw e at h
All-Among-InFlight c (f ∷ fills) key p (h, hs) (inr a) = All-Among-InFlight c fills key p hs a

started-InFlight :
    (key : Text) (c : Coalesced) (fills : List (Text × ℕ))
    → get key c.in_flight ≡ none
    → InFlight c fills
    → All (λ (f : Text × ℕ). get f.0 (put key c.started c.in_flight) ≡ some f.1) fills
started-InFlight key c fills absent =
    All-mono (λ (f : Text × ℕ). get f.0 c.in_flight ≡ some f.1)
      (λ (f : Text × ℕ). get f.0 (put key c.started c.in_flight) ≡ some f.1) fills
      (λ (k, p) h. ground (arith, get-put key k c.started c.in_flight, eq_iff key k, absent))

settled-InFlight :
    (key : Text) (pending : ℕ) (c : Coalesced) (fills : List (Text × ℕ))
    → get key c.in_flight ≡ some pending
    → InFlight c fills
    → All
        (λ (f : Text × ℕ). get f.0 (remove key c.in_flight) ≡ some f.1)
        (filter (λ (f : Text × ℕ). not (nat_eq f.1 pending)) fills)
unfolding filter
settled-InFlight key pending c [] running hs = tt
settled-InFlight key pending c ((k, p) ∷ fills) running (h, hs) =
    let rest = settled-InFlight key pending c fills running hs in
    elim (Bool-cases (nat_eq p pending)) [
      | inl same ↦ rw same rest
      | inr other ↦
          rw other (ground (arith, get-remove key k c.in_flight, eq_iff key k, other), rest)
    ]

joined-InFlight :
    (key : Text) (e : Option ℕ) (c : Coalesced) (fills : List (Text × ℕ))
    → get key c.in_flight ≡ e
    → InFlight c fills
    → InFlight (joined key e c).0 (started_fill key e c.started fills)
unfolding joined
joined-InFlight key (some running) c fills e hs = hs
joined-InFlight key none c fills e hs = (
  ground (arith, get-put key key c.started c.in_flight, eq_refl key),
  started-InFlight key c fills e hs,
)

settle_fill-remove :
    (key : Text) (pending : ℕ) (c : Coalesced)
    → get key c.in_flight ≡ some pending
    → (settle_fill key pending c).in_flight ≡ remove key c.in_flight
unfolding settle_fill
settle_fill-remove key pending c h = ground (arith, h)

IsReachable-InFlight :
    (c : Coalesced) (fills : List (Text × ℕ)) → IsReachable c fills → InFlight c fills
unfolding coalesced_discovery
IsReachable-InFlight _ _ idle = tt
IsReachable-InFlight _ _ (arrives {c} {fills} key r) =
    joined-InFlight key (get key c.in_flight) c fills refl (IsReachable-InFlight c fills r)
IsReachable-InFlight _ _ (settles {c} {fills} key pending among r) =
    let hs = IsReachable-InFlight c fills r in
    let running = All-Among-InFlight c fills key pending hs among in
    rw (settle_fill-remove key pending c running) (settled-InFlight key pending c fills running hs)

-- However requests arrive and fills settle: a request that arrives while a fill for its key is running
-- joins that very fill and starts none.
pub coalesced_discovery-joins :
    (c : Coalesced) (fills : List (Text × ℕ)) (key : Text) (pending : ℕ)
    → IsReachable c fills
    → Among (key, pending) fills
    → coalesced_discovery key c ≡ (c, pending)
unfolding coalesced_discovery
coalesced_discovery-joins c fills key pending r among =
    rw (All-Among-InFlight c fills key pending (IsReachable-InFlight c fills r) among, joined) refl
