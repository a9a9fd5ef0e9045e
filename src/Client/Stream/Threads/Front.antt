-- ===== src/Client/Stream/Threads/Front.antt =====
-- What the operations of `ClientTaskTimer` (stream/src/client/timer.rs) do to its channel and to the
-- count of what waits there: nothing, or they receive all of it.
use occams_rpc.Base.{
  ℕ, suc, ◌+◌, ◌≤◌, ◌≡◌, ◌⊎◌, inl, inr, refl, sym, ap, subst, ◌∙◌, Bool-cases, Option, some, none,
  List, [], ◌∷◌, arith, length, leb, ltb, ◌&&◌,
}
use occams_rpc.Base.Int.{IsU64}
use occams_rpc.Client.Map.{lookup}
use occams_rpc.Client.Timer.{
  Timer, got_pending_task, got_all, drain, poll_sent_task, take_task, sent_searched, take_awaited,
  wait_reg_task, clean_pending_tasks, check_pending_tasks_empty, adjust_task_queue, batch_timed_out,
  pop_back,
}
use occams_rpc.Client.Stream.Send.{Rises}

module _ {T : Type 0} (seq : T → ℕ) where
  -- The numbers in the channel lie below the bound, and the count says how many wait, and so many more.
  pub record Counts (bound extra : ℕ) (t : Timer T) : Type 0 where
    pub rises : Rises seq (suc t.processed_seq) t.pending_tasks bound
    pub count : t.pending_task_count ≡ length t.pending_tasks + extra

  -- The front of the one timer is that of the other, or of what it is when the channel was received.
  abbrev pub Same : Timer T → Timer T → Type 0
  Same t t' =
      (t'.pending_tasks ≡ t.pending_tasks)
      × (t'.processed_seq ≡ t.processed_seq)
      × (t'.pending_task_count ≡ t.pending_task_count)

  abbrev pub Front : Timer T → Timer T → Type 0
  Front t t' = Same t t' ⊎ Same (drain seq t) t'

  Same-Counts :
      (bound extra : ℕ) (t t' : Timer T) → Same t t' → Counts bound extra t → Counts bound extra t'
  Same-Counts bound extra t t' (p, q, r) c = record {
    rises =
        subst (λ x. Rises seq (suc x) t'.pending_tasks bound) (sym q)
          (subst (λ x. Rises seq (suc t.processed_seq) x bound) (sym p) c.rises);
    count = r ∙ c.count ∙ ap (λ x. length x + extra) (sym p);
  }

  got_all-Counts :
      (xs : List T) (bound extra : ℕ) (t : Timer T)
      → IsU64 (length xs + extra)
      → t.pending_tasks ≡ []
      → Rises seq (suc t.processed_seq) xs bound
      → t.pending_task_count ≡ length xs + extra
      → Counts bound extra (got_all seq xs t) × ((got_all seq xs t).pending_tasks ≡ [])
  got_all-Counts [] bound extra t u p r c = (
    record {
      rises = subst (λ x. Rises seq (suc t.processed_seq) x bound) (sym p) r;
      count = c ∙ ap (λ x. length x + extra) (sym p);
    },
    p,
  )
  got_all-Counts (x ∷ xs) bound extra t u p r c =
      got_all-Counts xs bound extra (got_pending_task seq x t) (omega (arith, u)) p r.1
        (omega (arith, c, u))

  pub drain-Counts :
      (bound extra : ℕ) (t : Timer T)
      → IsU64 (length t.pending_tasks + extra)
      → Counts bound extra t
      → Counts bound extra (drain seq t) × ((drain seq t).pending_tasks ≡ [])
  unfolding drain
  drain-Counts bound extra t u c =
      got_all-Counts t.pending_tasks bound extra (record t { pending_tasks = [] }) u refl c.rises
        c.count

  pub Front-Counts :
      (bound extra : ℕ) (t t' : Timer T)
      → IsU64 (length t.pending_tasks + extra)
      → Front t t'
      → Counts bound extra t
      → Counts bound extra t' × (length t'.pending_tasks ≤ length t.pending_tasks)
  Front-Counts bound extra t t' u (inl s) c =
      (Same-Counts bound extra t t' s c, omega (arith, ap length s.0))
  Front-Counts bound extra t t' u (inr s) c =
      let (d, e) = drain-Counts bound extra t u c in
      (Same-Counts bound extra (drain seq t) t' s d, omega (arith, ap length s.0, ap length e))

  pub clean-Front : (t : Timer T) → Front t (clean_pending_tasks seq t).1
  unfolding clean_pending_tasks
  clean-Front t = inr (refl, refl, refl)

  pub check-Front : (t : Timer T) → Front t (check_pending_tasks_empty seq t).1
  unfolding check_pending_tasks_empty
  check-Front t = inr (refl, refl, refl)

  sent_searched-Same : (k : ℕ) (t : Timer T) (o : Option T) → Same t (sent_searched seq k t o).1
  sent_searched-Same k t (some x) = (refl, refl, refl)
  sent_searched-Same k t none = (refl, refl, refl)

  waited-Front : (k : ℕ) (t : Timer T) → Front t (take_awaited seq k (wait_reg_task seq k t)).1
  unfolding wait_reg_task
  waited-Front k t = elim (Bool-cases (leb k t.processed_seq)) [
    | inl here ↦ rw here (inl (sent_searched-Same k t (lookup k t.sent_tasks)))
    | inr ahead ↦ rw ahead (elim (Bool-cases t.reg_stopped_flag) [
      | inl stopped ↦ simp stopped (inl (refl, refl, refl))
      | inr open_ ↦
          simp open_
            (elim (Bool-cases ((poll_sent_task seq t).0 && leb k (drain seq t).processed_seq)) [
              | inl there ↦
                  rw there
                    (inr (sent_searched-Same k (drain seq t) (lookup k (drain seq t).sent_tasks)))
              | inr none_yet ↦ rw none_yet (inr (refl, refl, refl))
            ])
    ])
  ]

  pub take-Front : (k : ℕ) (t : Timer T) → Front t (take_task seq k t).1
  unfolding take_task
  take-Front k t = elim (Bool-cases (ltb k t.min_delay_seq)) [
    | inl old ↦ rw old (inl (refl, refl, refl))
    | inr young ↦ rw young (elim (Bool-cases (ltb t.processed_seq k)) [
      | inl ahead ↦ rw ahead (waited-Front k t)
      | inr known ↦ rw known (inl (sent_searched-Same k t (lookup k t.sent_tasks)))
    ])
  ]

  batch-Same : (m : List (ℕ × T)) (t : Timer T) → Same t (batch_timed_out seq m t).1
  batch-Same [] t = (refl, refl, refl)
  batch-Same (x ∷ m) t = (refl, refl, refl)

  pub adjust-Same : (t : Timer T) → Same t (adjust_task_queue seq t).1
  unfolding adjust_task_queue
  adjust-Same t =
      let (m, ms) = pop_back seq t.sent_tasks t.delay_tasks_queue in
      elim (Bool-cases (ltb t.task_timeout (suc (length t.delay_tasks_queue)))) [
        | inl full ↦ rw full (batch-Same m (record t { sent_tasks = []; delay_tasks_queue = ms }))
        | inr room ↦ rw room (refl, refl, refl)
      ]
