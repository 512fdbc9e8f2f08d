-- ===== src/Rest/Best.antt =====
-- The match that a request is dispatched to, against a description of it that does not sort.
use service_plane.Prelude.{
  ℕ, ◌≤◌, ◌<◌, ◌≡◌, refl, sym, ap, ◌↔◌, ◌⊎◌, inl, inr, some, List, [], ◌∷◌, arith,
}
use service_plane.Prelude.Tests.{leb, nat_eq, Bool-cases}
use service_plane.Prelude.Lists.{All}
use service_plane.Prelude.Text.{Text}
use service_plane.Shared.Result.{ok}
use service_plane.Shared.Catalog.{ServiceHttpMethod, DiscoveredServiceAbility}
use service_plane.Rest.{
  RestMatch, insert_match, sort_matches, best_match, rest_candidates, find_rest_method,
}

-- The match stands in the list, and every other one there has fewer static segments.
abbrev pub IsBest : RestMatch → List RestMatch → Type 0
IsBest b [] = ⊥
IsBest b (m ∷ ms) =
    (m ≡ b) × All (λ (other : RestMatch). other.static_segments < b.static_segments) ms
    ⊎ (m.static_segments < b.static_segments) × IsBest b ms

abbrev Below : RestMatch → List RestMatch → Type 0
Below b [] = Unit
Below b (m ∷ ms) = m.static_segments < b.static_segments

abbrev NotAbove : RestMatch → List RestMatch → Type 0
NotAbove b [] = Unit
NotAbove b (m ∷ ms) = m.static_segments ≤ b.static_segments

abbrev AtMost : ℕ → List RestMatch → Type 0
AtMost n [] = Unit
AtMost n (m ∷ ms) = (m.static_segments ≤ n) × AtMost n ms

AtMost-weaken : (n k : ℕ) (ms : List RestMatch) → n ≤ k → AtMost n ms → AtMost k ms
AtMost-weaken n k [] h a = tt
AtMost-weaken n k (m ∷ ms) h (a, rest) = (omega arith, AtMost-weaken n k ms h rest)

abbrev pub AllBelow : ℕ → List RestMatch → Type 0
AllBelow k = All (λ (other : RestMatch). other.static_segments < k)

AtMost-below : (k n : ℕ) (ms : List RestMatch) → n < k → AtMost n ms → AllBelow k ms
AtMost-below k n [] h a = tt
AtMost-below k n (m ∷ ms) h (a, rest) = (omega arith, AtMost-below k n ms h rest)

-- How the head and the rest of a sorted list stand to the list that was sorted.
record IsTop (b : RestMatch) (rest ms : List RestMatch) : Type 0 where
  bounds : AtMost b.static_segments ms
  next : NotAbove b rest
  member : (k : ℕ) → AllBelow k ms → b.static_segments < k
  sound : Below b rest → IsBest b ms
  complete : (c : RestMatch) → IsBest c ms → (c ≡ b) × Below b rest

abbrev Top : List RestMatch → List RestMatch → Type 0
Top [] ms = ms ≡ []
Top (b ∷ rest) ms = IsTop b rest ms

Below-insert_match :
    (m b : RestMatch) (ms : List RestMatch)
    → m.static_segments < b.static_segments
    → Below b (insert_match m ms) ↔ Below b ms
unfolding insert_match
Below-insert_match m b [] h = (λ _. tt, λ _. h)
Below-insert_match m b (n ∷ ns) h = elim (Bool-cases (leb n.static_segments m.static_segments)) [
  | inl le ↦ rw le (λ _. ground (arith, le), λ _. h)
  | inr gt ↦ rw gt (λ k. k, λ k. k)
]

NotAbove-insert_match :
    (m b : RestMatch) (ms : List RestMatch)
    → m.static_segments < b.static_segments
    → NotAbove b ms
    → NotAbove b (insert_match m ms)
unfolding insert_match
NotAbove-insert_match m b [] h k = omega arith
NotAbove-insert_match m b (n ∷ ns) h k =
    elim (Bool-cases (leb n.static_segments m.static_segments)) [
      | inl le ↦ rw le (omega arith)
      | inr gt ↦ rw gt k
    ]

alone-Top : (m : RestMatch) → IsTop m [] (m ∷ [])
alone-Top m = record {
  bounds = (omega arith, tt);
  next = tt;
  member = λ k (h, _). h;
  sound = λ _. inl (refl, tt);
  complete = λ c h. elim h [ inl (e, _) ↦ (sym e, tt) | inr (_, no_more) ↦ absurd no_more ];
}

-- A match that is not below the head goes before it.
before-Top :
    (m n : RestMatch) (ns ms : List RestMatch)
    → n.static_segments ≤ m.static_segments
    → IsTop n ns ms
    → IsTop m (n ∷ ns) (m ∷ ms)
before-Top m n ns ms le t = record {
  bounds = (omega arith, AtMost-weaken n.static_segments m.static_segments ms le t.bounds);
  next = le;
  member = λ k (h, _). h;
  sound = λ h. inl (refl, AtMost-below m.static_segments n.static_segments ms h t.bounds);
  complete = λ c h. elim h [
    | inl (e, below) ↦ (sym e, t.member m.static_segments (rw (sym e) at below))
    | inr (lt, best) ↦
        let same = ap (λ (r : RestMatch). r.static_segments) (t.complete c best).0 in
        absurd (omega (arith, lt, le, same))
  ];
}

after-Top :
    (m n : RestMatch) (ns ms : List RestMatch)
    → m.static_segments < n.static_segments
    → IsTop n ns ms
    → IsTop n (insert_match m ns) (m ∷ ms)
after-Top m n ns ms lt t = record {
  bounds = (omega arith, t.bounds);
  next = NotAbove-insert_match m n ns lt t.next;
  member = λ k (_, h). t.member k h;
  sound = λ h. inr (lt, t.sound ((Below-insert_match m n ns lt).0 h));
  complete = λ c h. elim h [
    | inl (e, below) ↦
        let same = ap (λ (r : RestMatch). r.static_segments) e in
        absurd (omega (arith, lt, same, t.member c.static_segments below))
    | inr (above, best) ↦
        let (same, rest) = t.complete c best in (same, (Below-insert_match m n ns lt).1 rest)
  ];
}

insert_match-Top :
    (m : RestMatch) (sorted ms : List RestMatch)
    → Top sorted ms
    → Top (insert_match m sorted) (m ∷ ms)
unfolding insert_match
insert_match-Top m [] ms t = rw t (alone-Top m)
insert_match-Top m (n ∷ ns) ms t = elim (Bool-cases (leb n.static_segments m.static_segments)) [
  | inl le ↦ rw le (before-Top m n ns ms (ground (arith, le)) t)
  | inr gt ↦ rw gt (after-Top m n ns ms (ground (arith, gt)) t)
]

sort_matches-Top : (ms : List RestMatch) → Top (sort_matches ms) ms
unfolding sort_matches
sort_matches-Top [] = refl
sort_matches-Top (m ∷ ms) = insert_match-Top m (sort_matches ms) ms (sort_matches-Top ms)

best_match_iff :
    (pathname : Text) (sorted ms : List RestMatch) (b : RestMatch)
    → Top sorted ms
    → (best_match pathname sorted ≡ ok (some b)) ↔ IsBest b ms
unfolding best_match
best_match_iff pathname [] ms b t = (λ h. absurd (ground arith), λ h. absurd (rw t at h))
best_match_iff pathname (m ∷ []) ms b t = (
  λ h. let e : m ≡ b = ground arith in rw (sym e) (t.sound tt),
  λ h. ap (λ c. ok (some c)) (sym (t.complete b h).0),
)
best_match_iff pathname (m ∷ n ∷ ns) ms b t =
    let same = nat_eq n.static_segments m.static_segments in
    elim (Bool-cases same) [
      | inl equal ↦
          rw equal
            (λ h. absurd (ground arith), λ h. absurd (ground (arith, equal, (t.complete b h).1)))
      | inr other ↦ rw other (
        λ h. let e : m ≡ b = ground arith in rw (sym e) (t.sound (ground (arith, other, t.next))),
        λ h. ap (λ c. ok (some c)) (sym (t.complete b h).0),
      )
    ]

-- A request is dispatched to a match exactly when that is the one with the most static segments among
-- the published matches of its path and method, and no other has as many.
pub find_rest_method_iff :
    (abilities : List DiscoveredServiceAbility) (method : ServiceHttpMethod) (pathname : Text)
    (b : RestMatch)
    → (find_rest_method abilities method pathname ≡ ok (some b))
      ↔ IsBest b (rest_candidates abilities method pathname)
unfolding find_rest_method
find_rest_method_iff abilities method pathname b =
    let candidates = rest_candidates abilities method pathname in
    best_match_iff pathname (sort_matches candidates) candidates b (sort_matches-Top candidates)
