-- ===== src/Client/Failover/Select.antt =====
-- `ClusterConfig::select` (stream/src/client/failover.rs) finds the first healthy pool behind its seed.
use native.Mathlib.Nat.{mod-eq_of_lt, add-mod_right}
use occams_rpc.Base.{
  ℕ, zero, suc, ◌+◌, ◌^◌, ◌%◌, ◌≤◌, ◌<◌, ◌≡◌, refl, sym, ◌∙◌, Bool, true, false, Bool-cases,
  Option-cases, inl, inr, Option, none, some, List, length, get_elem?, get_elem?-lt, ◌==◌,
  if◌then◌else◌, arith,
}
use occams_rpc.Client.Failover.{scan, seed_of, range_len, select}

module _ {P : Type 0} (is_healthy : P → Bool) (pools : List P) where
  -- The pool at the place i of the ring is not healthy.
  abbrev pub IsDown : ℕ → Type 0
  IsDown i = (p : P) → get_elem? pools (i % length pools) ≡ some p → is_healthy p ≡ false

  -- The pool p at the place i of the ring is the first healthy one from the seed on, among as many
  -- places as there are pools; or every place has a pool that is down.
  abbrev pub Finds : ℕ → ℕ → Option (ℕ × P) → Type 0
  Finds n seed (some (i, p)) =
      (seed ≤ i)
      × (i < seed + n)
      × (get_elem? pools (i % length pools) ≡ some p)
      × (is_healthy p ≡ true)
      × ((j : ℕ) → seed ≤ j → j < i → IsDown j)
  Finds n seed none = (j : ℕ) → seed ≤ j → j < seed + n → IsDown j

  IsDown-none : (i : ℕ) → get_elem? pools (i % length pools) ≡ none → IsDown i
  IsDown-none i h p g = absurd (ground (arith, sym h ∙ g))

  IsDown-some :
      (i : ℕ) (q : P)
      → get_elem? pools (i % length pools) ≡ some q
      → is_healthy q ≡ false
      → IsDown i
  IsDown-some i q h f p g = ground (arith, f, sym h ∙ g)

  Finds-suc :
      (n seed : ℕ) (r : Option (ℕ × P)) → IsDown seed → Finds n (suc seed) r → Finds (suc n) seed r
  Finds-suc n seed (some (i, p)) d f = (
    omega (arith, f.0),
    omega (arith, f.1),
    f.2,
    f.3,
    λ j h k. elim (Bool-cases (seed == j)) [
      | inl same ↦ ground (arith, same, d)
      | inr differs ↦ f.4 j (ground (arith, differs, h)) k
    ],
  )
  Finds-suc n seed none d f = λ j h k. elim (Bool-cases (seed == j)) [
    | inl same ↦ ground (arith, same, d)
    | inr differs ↦ f j (ground (arith, differs, h)) (omega (arith, k))
  ]

  scan-Finds : (n seed : ℕ) → Finds n seed (scan is_healthy n seed pools)
  scan-Finds zero seed = λ j h k. absurd (omega (arith, h, k))
  scan-Finds (suc n) seed = elim (Option-cases (get_elem? pools (seed % length pools))) [
    | inl absent ↦ rw absent (
        Finds-suc n seed (scan is_healthy n (suc seed) pools) (IsDown-none seed absent)
          (scan-Finds n (suc seed)))
    | inr present ↦ rw present.1 (elim (Bool-cases (is_healthy present.0)) [
      | inl up ↦
          rw up (omega arith, omega arith, present.1, up, λ j h k. absurd (omega (arith, h, k)))
      | inr down ↦ rw down (
          Finds-suc n seed (scan is_healthy n (suc seed) pools)
            (IsDown-some seed present.0 present.1 down) (scan-Finds n (suc seed)))
    ])
  ]

  -- As many places as there are pools, from any seed on, are all of them.
  covered :
      (seed j : ℕ)
      → j < length pools
      → (i : ℕ) × (seed ≤ i) × (i < seed + length pools) × (i % length pools ≡ j)
  covered zero j h = (j, omega arith, omega (arith, h), mod-eq_of_lt h)
  covered (suc seed) j h =
      let before = covered seed j h in
      elim (Bool-cases (before.0 == seed)) [
        | inl same ↦ (
          before.0 + length pools,
          ground (arith, same, h),
          ground (arith, same, h),
          add-mod_right before.0 (length pools) ∙ before.3,
        )
        | inr differs ↦
            (before.0, ground (arith, differs, before.1), omega (arith, before.2), before.3)
      ]

  -- What is selected is the first healthy pool from the seed on, counted around the ring; nothing is
  -- selected only when no pool is healthy.
  abbrev pub Selects : ℕ → Option (ℕ × P) → Type 0
  Selects seed (some x) = Finds (length pools) seed (some x)
  Selects seed none = (j : ℕ) (p : P) → get_elem? pools j ≡ some p → is_healthy p ≡ false

  Finds-Selects : (seed : ℕ) (r : Option (ℕ × P)) → Finds (length pools) seed r → Selects seed r
  Finds-Selects seed (some x) f = f
  Finds-Selects seed none f = λ j p h.
      let place = covered seed j (get_elem?-lt pools j p h) in
      f place.0 place.1 place.2 p (rw place.3 h)

  -- Where the search starts: behind the last place tried, or at the round-robin counter, or at 0.
  abbrev pub StartsAt : Bool → ℕ → Option ℕ → ℕ → Type 0
  StartsAt round_robin rr_counter (some index) seed = seed ≡ index + 1
  StartsAt true rr_counter none seed = seed ≡ rr_counter
  StartsAt false rr_counter none seed = seed ≡ 0

  -- The counter moves on, wrapping, where it gave the start; without pools it is not read.
  abbrev pub MovesTo : Bool → ℕ → Option ℕ → ℕ → Type 0
  MovesTo round_robin rr_counter (some index) counter = counter ≡ rr_counter
  MovesTo true rr_counter none counter =
      counter ≡ (if length pools == 0 then rr_counter else (rr_counter + 1) % 2 ^ 64)
  MovesTo false rr_counter none counter = counter ≡ rr_counter

  starts-seed_of :
      (round_robin : Bool) (rr_counter : ℕ) (last_index : Option ℕ) (seed : ℕ)
      → StartsAt round_robin rr_counter last_index seed
      → seed < 2 ^ 64
      → (seed_of is_healthy round_robin rr_counter last_index).0 ≡ seed
  starts-seed_of round_robin rr_counter (some index) seed s h = omega (arith, s, h)
  starts-seed_of true rr_counter none seed s h = sym s
  starts-seed_of false rr_counter none seed s h = sym s

  select-MovesTo :
      (round_robin : Bool) (rr_counter : ℕ) (last_index : Option ℕ)
      → MovesTo round_robin rr_counter last_index
          (select is_healthy round_robin rr_counter last_index pools).1
  unfolding select
  select-MovesTo round_robin rr_counter (some index) = elim (Bool-cases (length pools == 0)) [
    | inl nothing ↦ rw nothing refl
    | inr something ↦ rw something refl
  ]
  select-MovesTo true rr_counter none = elim (Bool-cases (length pools == 0)) [
    | inl nothing ↦ rw nothing refl
    | inr something ↦ rw something refl
  ]
  select-MovesTo false rr_counter none = elim (Bool-cases (length pools == 0)) [
    | inl nothing ↦ rw nothing refl
    | inr something ↦ rw something refl
  ]

  select-Selects :
      (round_robin : Bool) (rr_counter : ℕ) (last_index : Option ℕ) (seed : ℕ)
      → StartsAt round_robin rr_counter last_index seed
      → seed + length pools < 2 ^ 64
      → Selects seed (select is_healthy round_robin rr_counter last_index pools).0
  unfolding select
  select-Selects round_robin rr_counter last_index seed s h =
      let e = starts-seed_of round_robin rr_counter last_index seed s (omega (arith, h)) in
      let n : range_len is_healthy seed (length pools) ≡ length pools = omega (arith, h) in
      elim (Bool-cases (length pools == 0)) [
        | inl nothing ↦
            rw nothing (λ j p h'. absurd (ground (arith, nothing, get_elem?-lt pools j p h')))
        | inr something ↦ rw something (
            rw e (
              rw n (
                Finds-Selects seed (scan is_healthy (length pools) seed pools)
                  (scan-Finds (length pools) seed))))
      ]

  -- The condition: the place behind the last one that the search may come to is a usize, so that no
  -- sum wraps. The pool that is selected is healthy, and the first healthy one from the start on,
  -- counted around the ring of the pools: the start is the place behind the last one tried, or the
  -- round-robin counter, or 0. Nothing is selected only when no pool at all is healthy. The round-robin
  -- counter moves on by one, wrapping, exactly where it gave the start and there are pools.
  pub select_lem :
      (round_robin : Bool) (rr_counter : ℕ) (last_index : Option ℕ) (seed : ℕ)
      → StartsAt round_robin rr_counter last_index seed
      → seed + length pools < 2 ^ 64
      → Selects seed (select is_healthy round_robin rr_counter last_index pools).0
        × MovesTo round_robin rr_counter last_index
            (select is_healthy round_robin rr_counter last_index pools).1
  select_lem round_robin rr_counter last_index seed s h = (
    select-Selects round_robin rr_counter last_index seed s h,
    select-MovesTo round_robin rr_counter last_index,
  )

  -- A pool that is selected is healthy, and stands at a place of the ring not before the seed.
  abbrev pub Picks : ℕ → Option (ℕ × P) → Type 0
  Picks seed none = Unit {0}
  Picks seed (some (i, p)) =
      (seed ≤ i) × (get_elem? pools (i % length pools) ≡ some p) × (is_healthy p ≡ true)

  Finds-Picks : (n seed : ℕ) (r : Option (ℕ × P)) → Finds n seed r → Picks seed r
  Finds-Picks n seed none f = tt
  Finds-Picks n seed (some (i, p)) f = (f.0, f.2, f.3)

  pub select-Picks :
      (round_robin : Bool) (rr_counter : ℕ) (last_index : Option ℕ)
      → Picks
          (seed_of is_healthy round_robin rr_counter last_index).0
          (select is_healthy round_robin rr_counter last_index pools).0
  unfolding select
  select-Picks round_robin rr_counter last_index =
      let seed = (seed_of is_healthy round_robin rr_counter last_index).0 in
      let n = range_len is_healthy seed (length pools) in
      elim (Bool-cases (length pools == 0)) [
        | inl nothing ↦ rw nothing tt
        | inr something ↦
            rw something (Finds-Picks n seed (scan is_healthy n seed pools) (scan-Finds n seed))
      ]
