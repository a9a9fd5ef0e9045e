-- ===== src/Client/Timer/Take.antt =====
-- `ClientTaskTimer::take_task` (stream/src/client/timer.rs) finds what was registered, whether it is
-- still in the channel or in a map.
use occams_rpc.Base.{
  ℕ, suc, ◌≤◌, ◌<◌, ◌≡◌, refl, sym, ap, ◌∙◌, true, false, Bool-cases, Option-cases, inl, inr,
  Option, none, some, List, [], ◌∷◌, ◌++◌, arith, length, ltb, leb, append-nil, eq-nil_of_length,
  subst,
}
use occams_rpc.Base.Result.{ok}
use occams_rpc.Client.Map.{
  lookup, removed, lookup-append, removed-append_first, removed-append_second, removed-none,
  lookup-Over,
}
use occams_rpc.Client.Timer.{
  Poll, ready, Timer, got_all, drain, take_task, take_registered, taken_delayed, wait_reg_task,
}
use occams_rpc.Client.Timer.Order.{IsOrdered}
use occams_rpc.Client.Timer.Held.{entries, flat, held, drain-IsOrdered, entries-Over, held-Over}

module _ {T : Type 0} (seq : T → ℕ) where
  -- The batches are searched as the one list of their entries.
  taken_delayed_lem :
      (k : ℕ) (ms : List (List (ℕ × T)))
      → ((taken_delayed seq k ms).0 ≡ lookup k (flat seq ms))
        × (flat seq (taken_delayed seq k ms).1 ≡ removed k (flat seq ms))
  taken_delayed_lem k [] = (refl, refl)
  taken_delayed_lem k (m ∷ ms) = elim (Option-cases (lookup k m)) [
    | inl absent ↦
        rw (lookup-append k m (flat seq ms), removed-append_second k m (flat seq ms) absent, absent)
          ((taken_delayed_lem k ms).0, ap (λ n. m ++ n) (taken_delayed_lem k ms).1)
    | inr present ↦
        rw
          (
            lookup-append k m (flat seq ms),
            removed-append_first k present.0 m (flat seq ms) present.1,
            present.1,
          )
          (refl, refl)
  ]

  pub take_registered_lem :
      (k : ℕ) (t : Timer T)
      → lookup k (entries seq t.pending_tasks) ≡ none
      → ((take_registered seq k t).0 ≡ lookup k (held seq t))
        × (held seq (take_registered seq k t).1 ≡ removed k (held seq t))
  take_registered_lem k t p =
      let a =
        lookup-append k (t.sent_tasks ++ entries seq t.pending_tasks)
          (flat seq t.delay_tasks_queue) in
      let c = lookup-append k t.sent_tasks (entries seq t.pending_tasks) in
      let q = taken_delayed_lem k t.delay_tasks_queue in
      elim (Option-cases (lookup k t.sent_tasks)) [
        | inl absent ↦
            let e : lookup k (t.sent_tasks ++ entries seq t.pending_tasks) ≡ none =
              c ∙ rw absent p in
            rw
              (
                a,
                e,
                absent,
                removed-append_second k (t.sent_tasks ++ entries seq t.pending_tasks)
                    (flat seq t.delay_tasks_queue) e,
              )
              (q.0, ap (λ n. (t.sent_tasks ++ entries seq t.pending_tasks) ++ n) q.1)
        | inr present ↦
            let e : lookup k (t.sent_tasks ++ entries seq t.pending_tasks) ≡ some present.0 =
              c ∙ rw present.1 refl in
            rw
              (
                a,
                e,
                present.1,
                removed-append_first k present.0 (t.sent_tasks ++ entries seq t.pending_tasks)
                    (flat seq t.delay_tasks_queue) e,
                removed-append_first k present.0 t.sent_tasks (entries seq t.pending_tasks)
                    present.1,
              )
              (refl, refl)
      ]

  -- Nothing that waits in the channel has a number that was already processed.
  pub entries-lookup :
      (k : ℕ) (t : Timer T)
      → IsOrdered seq t
      → k ≤ t.processed_seq
      → lookup k (entries seq t.pending_tasks) ≡ none
  entries-lookup k t o h =
      lookup-Over k (suc t.processed_seq) (entries seq t.pending_tasks) (omega (arith, h))
        (entries-Over seq (suc t.processed_seq) t.pending_tasks o.rising)

  -- The answer for the number k: the task held under it, which is then held no more.
  abbrev pub Answers : ℕ → Timer T → Poll (Option T) × Timer T → Type 0
  Answers k t (a, t') = (a ≡ ready (lookup k (held seq t))) × (held seq t' ≡ removed k (held seq t))

  take_here :
      (k : ℕ) (t : Timer T)
      → IsOrdered seq t
      → k ≤ t.processed_seq
      → Answers k t (ready (take_registered seq k t).0, (take_registered seq k t).1)
  take_here k t o h =
      let l = take_registered_lem k t (entries-lookup k t o h) in (ap ready l.0, l.1)

  pub held-drain : (t : Timer T) → IsOrdered seq t → held seq (drain seq t) ≡ held seq t
  held-drain t o =
      let d = drain-IsOrdered seq t o in
      rw (d.1, d.2, d.4)
        (ap (λ m. m ++ flat seq t.delay_tasks_queue)
          (append-nil (t.sent_tasks ++ entries seq t.pending_tasks)))

  take_drained :
      (k : ℕ) (t : Timer T)
      → IsOrdered seq t
      → k ≤ (drain seq t).processed_seq
      → Answers k t
          (ready (take_registered seq k (drain seq t)).0, (take_registered seq k (drain seq t)).1)
  take_drained k t o h =
      subst
        (λ m.
          (ready (take_registered seq k (drain seq t)).0 ≡ ready (lookup k m))
          × (held seq (take_registered seq k (drain seq t)).1 ≡ removed k m))
        (held-drain t o) (take_here k (drain seq t) (drain-IsOrdered seq t o).0 h)

  -- A number below `min_delay_seq` is held by nobody.
  too_old :
      (k : ℕ) (t : Timer T) → IsOrdered seq t → k < t.min_delay_seq → Answers k t (ready none, t)
  too_old k t o h =
      let e = lookup-Over k t.min_delay_seq (held seq t) h (held-Over seq t o) in
      (ap ready (sym e), sym (removed-none k (held seq t) e))

  drain-waits :
      (k : ℕ) (t : Timer T)
      → t.processed_seq < k
      → k ≤ (drain seq t).processed_seq
      → ltb 0 (length t.pending_tasks) ≡ true
  unfolding drain
  drain-waits k t h g = elim (Bool-cases (ltb 0 (length t.pending_tasks))) [
    | inl some_wait ↦ some_wait
    | inr none_wait ↦
        let z : t.pending_tasks ≡ [] = eq-nil_of_length t.pending_tasks (ground arith) in
        absurd (
          omega (
            arith,
            h,
            subst (λ p. k ≤ (got_all seq p (record t { pending_tasks = [] })).processed_seq) z g,
          ))
  ]

  wait_reg_task-there :
      (k : ℕ) (t : Timer T)
      → t.processed_seq < k
      → t.reg_stopped_flag ≡ false
      → k ≤ (drain seq t).processed_seq
      → wait_reg_task seq k t ≡ (ready (ok tt), drain seq t)
  unfolding wait_reg_task
  wait_reg_task-there k t g open_ h =
      let not_known : leb k t.processed_seq ≡ false = ground arith in
      let is_there : leb k (drain seq t).processed_seq ≡ true = ground arith in
      simp (not_known, open_, drain-waits k t g h, is_there)

  -- A response finds its task: of an ordered timer, a number that was registered, whether its task is
  -- still in the channel, in the map of this second or in a batch of the past ones, is answered at
  -- once by the task held under it, and by none when none is held any more, as the shortcut through
  -- `min_delay_seq` says too; and that task alone is taken out.
  pub take_task_lem :
      (k : ℕ) (t : Timer T)
      → IsOrdered seq t
      → t.reg_stopped_flag ≡ false
      → k ≤ (drain seq t).processed_seq
      → Answers k t (take_task seq k t)
  unfolding take_task
  take_task_lem k t o open_ h = elim (Bool-cases (ltb k t.min_delay_seq)) [
    | inl old ↦ rw old (too_old k t o (ground arith))
    | inr young ↦ rw young (elim (Bool-cases (ltb t.processed_seq k)) [
      | inl ahead ↦
          rw (ahead, wait_reg_task-there k t (ground arith) open_ h) (take_drained k t o h)
      | inr known ↦ rw known (take_here k t o (ground arith))
    ])
  ]
