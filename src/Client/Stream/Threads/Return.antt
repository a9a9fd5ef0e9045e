-- ===== src/Client/Stream/Threads/Return.antt =====
-- The receiver of a ClientStream (stream/src/client/stream.rs) comes to its end.
use occams_rpc.Base.{
  ℕ, suc, ◌+◌, ◌≤◌, ◌<◌, ◌≡◌, refl, ap, ◌∙◌, Bool-cases, ltb, ◌⊎◌, inl, inr, [], arith, length,
}
use occams_rpc.Client.Timer.{clean_pending_tasks}
use occams_rpc.Client.Timer.Life.{ends}
use occams_rpc.Client.Stream.Threads.{
  running, cleaning, returned, Threads, life_of, with_life, new_threads, Step, Reach, counts,
  sees_closed, numbers, refuses, fails, writes, registers, flush_fails, pings, ping_fails, drops,
  sets_error, ticks, polls, checks, takes, closes, errs, cleans, returns,
}
use occams_rpc.Client.Stream.Threads.Front.{drain-Counts}
use occams_rpc.Client.Stream.Threads.Sound.{IsSound, bound, in_hand, fits}
use occams_rpc.Client.Stream.Threads.Fate.{Reach-IsSound}

module _ {T : Type 0} (seq_of : T → ℕ) (set_seq : ℕ → T → T) where
  -- The step is one of the receiver.
  abbrev pub OfReceiver : {s u : Threads T} → Step seq_of set_seq s u → Type 0
  OfReceiver (counts t e) = ⊥
  OfReceiver (sees_closed t e c) = ⊥
  OfReceiver (numbers t e c b) = ⊥
  OfReceiver (refuses t e) = ⊥
  OfReceiver (fails t e) = ⊥
  OfReceiver (writes t e) = ⊥
  OfReceiver (registers t e) = ⊥
  OfReceiver (flush_fails e) = ⊥
  OfReceiver (pings e b) = ⊥
  OfReceiver (ping_fails e) = ⊥
  OfReceiver (drops e) = ⊥
  OfReceiver (sets_error e) = ⊥
  OfReceiver (ticks e) = Unit {0}
  OfReceiver (polls e) = Unit {0}
  OfReceiver (checks e) = Unit {0}
  OfReceiver (takes k e) = Unit {0}
  OfReceiver (closes e) = Unit {0}
  OfReceiver (errs e) = Unit {0}
  OfReceiver (cleans e z) = Unit {0}
  OfReceiver (returns e z) = Unit {0}

  -- Steps of the receiver, one behind the other, the sender making none.
  pub data Alone : Threads T → Threads T → Type 0 where
    here : {s : Threads T} → Alone s s
    more :
        {s u v : Threads T} (step : Step seq_of set_seq s u)
        → OfReceiver step
        → Alone u v
        → Alone s v

  abbrev pub steps : {s v : Threads T} → Alone s v → ℕ
  steps here = 0
  steps (more step o r) = suc (steps r)

  -- The receiver has returned, or can make a step.
  abbrev pub Goes : Threads T → Type 0
  Goes v =
      (v.receiver ≡ returned)
      ⊎ ((w : Threads T) × (step : Step seq_of set_seq v w) × OfReceiver step)

  abbrev cleaned : Threads T → Threads T
  cleaned s = with_life (ends (clean_pending_tasks seq_of s.stream.timer) (life_of s)) s

  -- In its loop, cleaning, or returning.
  abbrev Moves : Threads T → Threads T → Type 0
  Moves s u =
      (s.receiver ≡ running)
      ⊎ (((s.receiver ≡ cleaning) × (0 < s.stream.timer.pending_task_count) × (u ≡ cleaned s))
          ⊎ ((s.receiver ≡ cleaning)
              × (s.stream.timer.pending_task_count ≡ 0)
              × (u ≡ record s { receiver = returned })))

  step-Moves : {s u : Threads T} (step : Step seq_of set_seq s u) → OfReceiver step → Moves s u
  step-Moves (counts t e) o = absurd o
  step-Moves (sees_closed t e c) o = absurd o
  step-Moves (numbers t e c b) o = absurd o
  step-Moves (refuses t e) o = absurd o
  step-Moves (fails t e) o = absurd o
  step-Moves (writes t e) o = absurd o
  step-Moves (registers t e) o = absurd o
  step-Moves (flush_fails e) o = absurd o
  step-Moves (pings e b) o = absurd o
  step-Moves (ping_fails e) o = absurd o
  step-Moves (drops e) o = absurd o
  step-Moves (sets_error e) o = absurd o
  step-Moves (ticks e) o = inl e
  step-Moves (polls e) o = inl e
  step-Moves (checks e) o = inl e
  step-Moves (takes k e) o = inl e
  step-Moves (closes e) o = inl e
  step-Moves (errs e) o = inl e
  step-Moves (cleans e z) o = inr (inl (e, z, refl))
  step-Moves (returns e z) o = inr (inr (e, z, refl))

  returned-halts :
      {s v : Threads T} (r : Alone s v) → s.receiver ≡ returned → (steps r ≡ 0) × (v ≡ s)
  returned-halts here e = (refl, refl)
  returned-halts (more step o r) e = elim (step-Moves step o) [
    | inl x ↦ absurd (ground (arith, e, x))
    | inr (inl x) ↦ absurd (ground (arith, e, x.0))
    | inr (inr x) ↦ absurd (ground (arith, e, x.0))
  ]

  -- Nothing is counted: only the return is left.
  none_left :
      {s v : Threads T} (r : Alone s v)
      → s.receiver ≡ cleaning
      → s.stream.timer.pending_task_count ≡ 0
      → (steps r ≤ 1) × Goes v
  none_left here e z = (omega arith, inr (_, returns e z, tt))
  none_left (more step o r) e z = elim (step-Moves step o) [
    | inl x ↦ absurd (ground (arith, e, x))
    | inr (inl x) ↦ absurd (omega (arith, z, x.1))
    | inr (inr x) ↦
        let (n, same) = returned-halts r (ap (λ (y : Threads T). y.receiver) x.2) in
        (omega (arith, n), inl (ap (λ (y : Threads T). y.receiver) (same ∙ x.2)))
  ]

  pub some-or-none : (n : ℕ) → (n ≡ 0) ⊎ (0 < n)
  some-or-none n = elim (Bool-cases (ltb 0 n)) [
    | inl e ↦ inr (ground (arith, e))
    | inr e ↦ inl (ground (arith, e))
  ]

  -- One round of cleaning leaves nothing counted.
  one_round :
      {s v : Threads T} (r : Alone s v)
      → s.receiver ≡ cleaning
      → (clean_pending_tasks seq_of s.stream.timer).1.pending_task_count ≡ 0
      → (steps r ≤ 2) × Goes v
  one_round {s} here e z = (
    omega arith,
    elim (some-or-none s.stream.timer.pending_task_count) [
      | inl none_there ↦ inr (_, returns e none_there, tt)
      | inr some_there ↦ inr (_, cleans e some_there, tt)
    ],
  )
  one_round (more step o r) e z = elim (step-Moves step o) [
    | inl x ↦ absurd (ground (arith, e, x))
    | inr (inl x) ↦
        let (n, g) =
          none_left r (ap (λ (y : Threads T). y.receiver) x.2 ∙ e)
            (ap (λ (y : Threads T). y.stream.timer.pending_task_count) x.2 ∙ z) in
        (omega (arith, n), g)
    | inr (inr x) ↦
        let (n, same) = returned-halts r (ap (λ (y : Threads T). y.receiver) x.2) in
        (omega (arith, n), inl (ap (λ (y : Threads T). y.receiver) (same ∙ x.2)))
  ]

module _ {T : Type 0} (seq_of : T → ℕ) (set_seq : ℕ → T → T)
    (law : (n : ℕ) (x : T) → seq_of (set_seq n x) ≡ n) where
  -- What is counted is what waits in the channel, and the first round of cleaning empties it.
  cleaned-count :
      (s : Threads T)
      → IsSound seq_of s
      → in_hand seq_of s.sender ≡ 0
      → s.refused ≡ []
      → (clean_pending_tasks seq_of s.stream.timer).1.pending_task_count ≡ 0
  unfolding clean_pending_tasks
  cleaned-count s h z e =
      let (c, p) =
        drain-Counts seq_of (bound seq_of s.sender s.stream.seq)
          (in_hand seq_of s.sender + length s.refused) s.stream.timer (fits seq_of s h) h.front in
      omega (arith, c.count, ap length p, z, ap length e)

  -- From each state that a new stream comes to, in which the receiver is at its end, the sender has no
  -- task in hand, and no task was refused: while the sender makes no step, the receiver makes at most
  -- two, a round of cleaning and its return; and it has a next step as long as it has not returned.
  pub Reach-Goes :
      (timeout thresholds : ℕ) (s : Threads T)
      → Reach seq_of set_seq (new_threads timeout thresholds) s
      → s.receiver ≡ cleaning
      → in_hand seq_of s.sender ≡ 0
      → s.refused ≡ []
      → (v : Threads T) (r : Alone seq_of set_seq s v)
      → (steps seq_of set_seq r ≤ 2) × Goes seq_of set_seq v
  Reach-Goes timeout thresholds s r e z n v a =
      one_round seq_of set_seq a e
        (cleaned-count s (Reach-IsSound seq_of set_seq law timeout thresholds r) z n)
