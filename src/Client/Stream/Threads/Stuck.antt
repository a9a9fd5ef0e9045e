-- ===== src/Client/Stream/Threads/Stuck.antt =====
-- A task that the codec has refused (`send_request` of stream/src/client/stream.rs) keeps the receiver
-- from ever returning.
use occams_rpc.Base.{inl, inr, ℕ, ◌<◌, ◌≡◌, ◌≢◌, [], arith, eq-nil_of_length}
use occams_rpc.Client.Stream.Threads.{
  returned, Threads, new_threads, Step, Reach, start, later, counts, sees_closed, numbers, refuses,
  fails, writes, registers, flush_fails, pings, ping_fails, drops, sets_error, ticks, polls, checks,
  takes, closes, errs, cleans, returns,
}
use occams_rpc.Client.Stream.Threads.Return.{some-or-none}
use occams_rpc.Client.Stream.Threads.Fate.{Reach-IsSound, Reach-returned}

module _ {T : Type 0} (seq_of : T → ℕ) (set_seq : ℕ → T → T)
    (law : (n : ℕ) (x : T) → seq_of (set_seq n x) ≡ n) where
  -- A refused task stays in the log.
  Step-refused : {s u : Threads T} → Step seq_of set_seq s u → u.refused ≡ [] → s.refused ≡ []
  Step-refused (counts t e) h = h
  Step-refused (sees_closed t e c) h = h
  Step-refused (numbers t e c b) h = h
  Step-refused (refuses t e) h = absurd (ground (arith, h))
  Step-refused (fails t e) h = h
  Step-refused (writes t e) h = h
  Step-refused (registers t e) h = h
  Step-refused (flush_fails e) h = h
  Step-refused (pings e b) h = h
  Step-refused (ping_fails e) h = h
  Step-refused (drops e) h = h
  Step-refused (sets_error e) h = h
  Step-refused (ticks e) h = h
  Step-refused (polls e) h = h
  Step-refused (checks e) h = h
  Step-refused (takes k e) h = h
  Step-refused (closes e) h = h
  Step-refused (errs e) h = h
  Step-refused (cleans e z) h = h
  Step-refused (returns e z) h = h

  Reach-refused : {s u : Threads T} → Reach seq_of set_seq s u → u.refused ≡ [] → s.refused ≡ []
  Reach-refused start h = h
  Reach-refused (later r step) h = Reach-refused r (Step-refused step h)

  Reach-append :
      {s u v : Threads T}
      → Reach seq_of set_seq s u
      → Reach seq_of set_seq u v
      → Reach seq_of set_seq s v
  Reach-append r start = r
  Reach-append r (later q step) = later (Reach-append r q) step

  -- Once the codec has refused a task of a stream that was new, the receiver never returns, whatever
  -- it and the sender do and in whatever turns, while the numbers do not run out: in each later state
  -- tasks are counted as pending, so that the loop of its end goes on.
  pub refused_stuck :
      (timeout thresholds : ℕ) (s u : Threads T)
      → Reach seq_of set_seq (new_threads timeout thresholds) s
      → s.refused ≢ []
      → Reach seq_of set_seq s u
      → (u.receiver ≢ returned) × (0 < u.stream.timer.pending_task_count)
  refused_stuck timeout thresholds s u r n q =
      let all = Reach-append r q in
      let h = Reach-IsSound seq_of set_seq law timeout thresholds all in
      (
        λ e. n (Reach-refused q (Reach-returned seq_of set_seq law timeout thresholds u all e).2),
        by_count u.stream.timer.pending_task_count (λ e.
            n (Reach-refused q (eq-nil_of_length u.refused (omega (arith, e, h.front.count))))),
      )
    where
      by_count : (k : ℕ) → (k ≡ 0 → ⊥) → 0 < k
      by_count k f = elim (some-or-none seq_of set_seq k) [ inl z ↦ absurd (f z) | inr p ↦ p ]
