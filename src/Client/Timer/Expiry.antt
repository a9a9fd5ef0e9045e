-- ===== src/Client/Timer/Expiry.antt =====
-- How `ClientTaskTimer` (stream/src/client/timer.rs) ends the tasks that no response came for: by the
-- ticks of the clock, or all at once with the connection.
use occams_rpc.Base.{
  ℕ, zero, suc, ◌≤◌, ◌<◌, ◌≡◌, refl, sym, ap, ap₂, ◌∙◌, Bool-cases, inl, inr, none, some, List, [],
  ◌∷◌, ◌++◌, arith, length, get_elem?, ltb, append_assoc, append-nil, some-injective,
}
use occams_rpc.Error.{RpcIntErr}
use occams_rpc.Client.Timer.{
  Timer, drain, ended, all_ended, emptied, batch_timed_out, pop_back, adjust_task_queue,
  clean_pending_tasks,
}
use occams_rpc.Client.Timer.Order.{IsOrdered}
use occams_rpc.Client.Timer.Held.{entries, flat, held, drain-IsOrdered}

module _ {T : Type 0} (seq : T → ℕ) where
  -- As many ticks of the clock, nothing else happening.
  abbrev pub seconds : ℕ → Timer T → Timer T
  seconds zero t = t
  seconds (suc n) t = (adjust_task_queue seq (seconds n t)).1

  abbrev pub batches : Timer T → List (List (ℕ × T))
  batches t = t.sent_tasks ∷ t.delay_tasks_queue

  pop_back-flat :
      (m : List (ℕ × T)) (ms : List (List (ℕ × T)))
      → flat seq (pop_back seq m ms).1 ++ (pop_back seq m ms).0 ≡ flat seq (m ∷ ms)
  pop_back-flat m [] = sym (append-nil m)
  pop_back-flat m (n ∷ ms) =
      append_assoc m (flat seq (pop_back seq n ms).1) (pop_back seq n ms).0
      ∙ ap (λ xs. m ++ xs) (pop_back-flat n ms)

  length-pop_back :
      (m : List (ℕ × T)) (ms : List (List (ℕ × T))) → length (pop_back seq m ms).1 ≡ length ms
  length-pop_back m [] = refl
  length-pop_back m (n ∷ ms) = ap suc (length-pop_back n ms)

  get-pop_back :
      (i : ℕ) (m : List (ℕ × T)) (ms : List (List (ℕ × T)))
      → i < length ms
      → get_elem? (pop_back seq m ms).1 i ≡ get_elem? (m ∷ ms) i
  get-pop_back i m [] h = absurd (omega (arith, h))
  get-pop_back zero m (n ∷ ms) h = refl
  get-pop_back (suc i) m (n ∷ ms) h = get-pop_back i n ms (omega (arith, h))

  last-pop_back :
      (m : List (ℕ × T)) (ms : List (List (ℕ × T)))
      → get_elem? (m ∷ ms) (length ms) ≡ some (pop_back seq m ms).0
  last-pop_back m [] = refl
  last-pop_back m (n ∷ ms) = last-pop_back n ms

  -- What a tick does to the batches: nothing is lost, the times run on, and the channel is untouched.
  abbrev pub Ticked : Timer T → List (T × RpcIntErr) × Timer T → Type 0
  Ticked t (out, t') =
      ((m : List (ℕ × T)) × (out ≡ ended seq RpcIntErr.timeout m)
        × (flat seq (batches t') ++ m ≡ flat seq (batches t)))
      × (t'.pending_tasks ≡ t.pending_tasks)

  timed_out-Ticked :
      (t : Timer T) (last : List (ℕ × T)) (init : List (List (ℕ × T)))
      → flat seq init ++ last ≡ flat seq (batches t)
      → Ticked t (batch_timed_out seq last (record t { sent_tasks = []; delay_tasks_queue = init }))
  timed_out-Ticked t [] init h = (([], refl, h), refl)
  timed_out-Ticked t (x ∷ m) init h = ((x ∷ m, refl, h), refl)

  -- A tick ends tasks only with the error Timeout, each task it ends was held, each task that was
  -- held is ended or held on, exactly once, and those still in the channel stay there.
  pub adjust_task_queue_keeps : (t : Timer T) → Ticked t (adjust_task_queue seq t)
  unfolding adjust_task_queue
  adjust_task_queue_keeps t =
      elim (Bool-cases (ltb t.task_timeout (suc (length t.delay_tasks_queue)))) [
        | inl full ↦
            rw full (timed_out-Ticked t _ _ (pop_back-flat t.sent_tasks t.delay_tasks_queue))
        | inr room ↦
            rw room (([], refl, append-nil (t.sent_tasks ++ flat seq t.delay_tasks_queue)), refl)
      ]

  abbrev pub IsBounded : Timer T → Type 0
  IsBounded t = length t.delay_tasks_queue ≤ t.task_timeout

  abbrev Aged : ℕ → List (ℕ × T) → Timer T → List (T × RpcIntErr) × Timer T → Type 0
  Aged i m t (out, t') =
      (get_elem? (batches t') (suc i) ≡ some m) × IsBounded t' × (t'.task_timeout ≡ t.task_timeout)

  timed_out-Aged :
      (i : ℕ) (m : List (ℕ × T)) (t : Timer T) (last : List (ℕ × T)) (init : List (List (ℕ × T)))
      → get_elem? init i ≡ some m
      → length init ≤ t.task_timeout
      → Aged i m t
          (batch_timed_out seq last (record t { sent_tasks = []; delay_tasks_queue = init }))
  timed_out-Aged i m t [] init h b = (h, b, refl)
  timed_out-Aged i m t (x ∷ n) init h b = (h, b, refl)

  -- A batch that is not yet as old as the timeout grows older by one.
  adjust-Aged :
      (i : ℕ) (m : List (ℕ × T)) (t : Timer T)
      → IsBounded t
      → i < t.task_timeout
      → get_elem? (batches t) i ≡ some m
      → Aged i m t (adjust_task_queue seq t)
  unfolding adjust_task_queue
  adjust-Aged i m t b h g =
      elim (Bool-cases (ltb t.task_timeout (suc (length t.delay_tasks_queue)))) [
        | inl full ↦ rw full (
            timed_out-Aged i m t _ _
              (get-pop_back i t.sent_tasks t.delay_tasks_queue (ground (arith, b, h)) ∙ g)
              (omega (arith, b, length-pop_back t.sent_tasks t.delay_tasks_queue)))
        | inr room ↦ rw room (g, ground arith, refl)
      ]

  seconds-Aged :
      (n : ℕ) (t : Timer T)
      → IsBounded t
      → n ≤ t.task_timeout
      → (get_elem? (batches (seconds n t)) n ≡ some t.sent_tasks)
        × IsBounded (seconds n t)
        × ((seconds n t).task_timeout ≡ t.task_timeout)
  seconds-Aged zero t b h = (refl, b, refl)
  seconds-Aged (suc n) t b h =
      let before = seconds-Aged n t b (omega (arith, h)) in
      let now =
        adjust-Aged n t.sent_tasks (seconds n t) before.1 (omega (arith, h, before.2)) before.0 in
      (now.0, now.1, now.2 ∙ before.2)

  timed_out-ended :
      (last : List (ℕ × T)) (t : Timer T)
      → (batch_timed_out seq last t).0 ≡ ended seq RpcIntErr.timeout last
  timed_out-ended [] t = refl
  timed_out-ended (x ∷ m) t = refl

  get-beyond : (i : ℕ) (ms : List (List (ℕ × T))) → length ms ≤ i → get_elem? ms i ≡ none
  get-beyond i [] h = refl
  get-beyond zero (m ∷ ms) h = absurd (omega (arith, h))
  get-beyond (suc i) (m ∷ ms) h = get-beyond i ms (omega (arith, h))

  -- A batch as old as the timeout ends at the next tick.
  adjust-expires :
      (m : List (ℕ × T)) (t : Timer T)
      → IsBounded t
      → get_elem? (batches t) t.task_timeout ≡ some m
      → (adjust_task_queue seq t).0 ≡ ended seq RpcIntErr.timeout m
  unfolding adjust_task_queue
  adjust-expires m t b g =
      elim (Bool-cases (ltb t.task_timeout (suc (length t.delay_tasks_queue)))) [
        | inl full ↦
            let size : length t.delay_tasks_queue ≡ t.task_timeout = ground (arith, b, full) in
            let oldest : some (pop_back seq t.sent_tasks t.delay_tasks_queue).0 ≡ some m =
              sym (last-pop_back t.sent_tasks t.delay_tasks_queue)
              ∙ (ap (λ n. get_elem? (batches t) n) size ∙ g) in
            rw full
              (timed_out-ended _ _ ∙ ap (ended seq RpcIntErr.timeout) (some-injective _ _ oldest))
        | inr room ↦
            let beyond : get_elem? (batches t) t.task_timeout ≡ none =
              get-beyond t.task_timeout (batches t) (ground (arith, room)) in
            absurd (ground (arith, sym beyond ∙ g))
      ]

  -- The tasks of this second time out all together, at the tick after as many as the timeout has
  -- seconds: each tick before that only makes their batch older by one.
  pub timeout_exact :
      (t : Timer T)
      → IsBounded t
      → ((n : ℕ)
          → n < t.task_timeout
          → get_elem? (seconds (suc n) t).delay_tasks_queue n ≡ some t.sent_tasks)
        × ((adjust_task_queue seq (seconds t.task_timeout t)).0
            ≡ ended seq RpcIntErr.timeout t.sent_tasks)
  timeout_exact t b = (
    λ n h. (seconds-Aged (suc n) t b (omega (arith, h))).0,
    let last = seconds-Aged t.task_timeout t b (omega arith) in
        adjust-expires t.sent_tasks (seconds t.task_timeout t) last.1
          (ap (λ i. get_elem? (batches (seconds t.task_timeout t)) i) last.2 ∙ last.0),
  )

  ended-append :
      (e : RpcIntErr) (m n : List (ℕ × T)) → ended seq e (m ++ n) ≡ ended seq e m ++ ended seq e n
  ended-append e [] n = refl
  ended-append e ((k, x) ∷ m) n = ap (◌∷◌ (x, e)) (ended-append e m n)

  ended-flat :
      (e : RpcIntErr) (ms : List (List (ℕ × T))) → ended seq e (flat seq ms) ≡ all_ended seq e ms
  ended-flat e [] = refl
  ended-flat e (m ∷ ms) =
      ended-append e m (flat seq ms) ∙ ap (λ xs. ended seq e m ++ xs) (ended-flat e ms)

  pub flat-emptied : (ms : List (List (ℕ × T))) → flat seq (emptied seq ms) ≡ []
  flat-emptied [] = refl
  flat-emptied (m ∷ ms) = flat-emptied ms

  -- The end of the connection: of an ordered timer, every task that was held, those waiting in the
  -- channel included, ends exactly once with the error IO, and nothing is held any more.
  pub clean_pending_tasks_lem :
      (t : Timer T)
      → IsOrdered seq t
      → ((clean_pending_tasks seq t).0 ≡ ended seq RpcIntErr.io (held seq t))
        × (held seq (clean_pending_tasks seq t).1 ≡ [])
  unfolding clean_pending_tasks
  clean_pending_tasks_lem t o =
      let d = drain-IsOrdered seq t o in
      (
        sym (
            ended-append RpcIntErr.io (t.sent_tasks ++ entries seq t.pending_tasks)
              (flat seq t.delay_tasks_queue)
            ∙ ap₂ (λ x y. x ++ y) (ap (ended seq RpcIntErr.io) (sym d.1))
                (ended-flat RpcIntErr.io t.delay_tasks_queue
                  ∙ ap (all_ended seq RpcIntErr.io) (sym d.2))),
        rw d.4 (flat-emptied (drain seq t).delay_tasks_queue),
      )
