-- ===== src/Fetch/Turns/Alone.antt =====
-- internal/fetch: how many requests are past the gate.
use property_search.Prelude.{
  ℕ, ◌≤◌, ◌<◌, ◌≡◌, refl, ◌∙◌, ◌+◌, Bool, true, false, ==_iff, some, arith, is_empty,
}
use property_search.Config.{Config}
use property_search.Fetch.Gate.{Gate, acquire, release, cool_down}
use property_search.Fetch.Transport.{new_client}
use property_search.Fetch.Turns.{
  outside, has_slot, Queue, take_turn, Step, enters, starts, interrupts, releases, cools, Reach,
  here, next,
}

-- One slot, and at most one request that has it.
record IsSingle (q : Queue) : Type 0 where
  one : q.gate.capacity ≡ 1
  few : q.gate.in_flight ≤ 1
  taken : (i : ℕ) → has_slot (q.turn i) ≡ true → q.gate.in_flight ≡ 1
  alone : (i j : ℕ) → has_slot (q.turn i) ≡ true → has_slot (q.turn j) ≡ true → i ≡ j

acquire_slot :
    (g g' : Gate) (priority : Bool) (now start : ℕ)
    → acquire g priority now ≡ some (start, g')
    → (g.in_flight < g.capacity) × (g'.in_flight ≡ g.in_flight + 1) × (g'.capacity ≡ g.capacity)
unfolding acquire
acquire_slot g g' priority now start e = ground arith

cool_down_slots :
    (g : Gate) (now : ℕ)
    → ((cool_down g now).in_flight ≡ g.in_flight) × ((cool_down g now).capacity ≡ g.capacity)
unfolding cool_down
cool_down_slots g now = ground arith

-- A request that has its slot leaves it.
leaves-IsSingle :
    (q : Queue) (i : ℕ)
    → has_slot (q.turn i) ≡ true
    → IsSingle q
    → IsSingle (record { gate = release q.gate; turn = take_turn q.turn i outside })
unfolding release
leaves-IsSingle q i had s = record {
  one = s.one;
  few = ground (arith, s.few);
  taken = λ j h. ground (arith, s.alone i j had, ==_iff j i);
  alone = λ j k hj hk. ground (arith, s.alone j k, ==_iff j i, ==_iff k i);
}

Step-IsSingle : {q r : Queue} → Step q r → IsSingle q → IsSingle r
Step-IsSingle {q} (enters i now start priority g at e) s =
    let (room, more, same) = acquire_slot q.gate g priority now start e in
    record {
      one = ground (arith, s.one);
      few = ground (arith, s.one);
      taken = λ j h. ground (arith, s.one);
      alone = λ j k hj hk. ground (arith, s.one, s.taken j, s.taken k, ==_iff j i, ==_iff k i);
    }
Step-IsSingle {q} (starts i now start at le) s = record {
  one = s.one;
  few = s.few;
  taken = λ j h. ground (arith, s.taken j, s.taken i, at, ==_iff j i);
  alone = λ j k hj hk. ground (arith, s.alone j k, at, ==_iff j i, ==_iff k i);
}
Step-IsSingle {q} (interrupts i start at) s = leaves-IsSingle q i (rw at refl) s
Step-IsSingle {q} (releases i at) s = leaves-IsSingle q i (rw at refl) s
Step-IsSingle {q} (cools now) s =
    let (flights, slots) = cool_down_slots q.gate now in
    record {
      one = slots ∙ s.one;
      few = ground (arith, s.few);
      taken = λ i h. flights ∙ s.taken i h;
      alone = s.alone;
    }

Reach-IsSingle : {q r : Queue} → Reach q r → IsSingle q → IsSingle r
Reach-IsSingle here s = s
Reach-IsSingle (next before step) s = Step-IsSingle step (Reach-IsSingle before s)

new_client_capacity :
    (c : Config)
    → is_empty c.flaresolverr_url ≡ false
    → ((new_client c).capacity ≡ 1) × ((new_client c).in_flight ≡ 0)
unfolding new_client
new_client_capacity c e = rw e (refl, refl)

-- Where FlareSolverr is configured, there is never more than one request past the gate, from a client
-- whose requests are all yet to come: whatever the order in which they arrive, whichever have priority,
-- are interrupted or meet a challenge. Requests for other hosts do not come through the gate.
pub Reach-one_request :
    (c : Config) (q r : Queue)
    → is_empty c.flaresolverr_url ≡ false
    → q.gate ≡ new_client c
    → ((i : ℕ) → q.turn i ≡ outside)
    → Reach q r
    → (i j : ℕ) → has_slot (r.turn i) ≡ true
    → has_slot (r.turn j) ≡ true
    → i ≡ j
Reach-one_request c q r set fresh idle run =
    let (slots, flights) = new_client_capacity c set in
    (Reach-IsSingle run (record {
      one = rw fresh slots;
      few = rw (fresh, flights) (omega arith);
      taken = λ i h. ground (arith, idle i);
      alone = λ i j hi hj. ground (arith, idle i);
    })).alone
