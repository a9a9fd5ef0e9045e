-- ===== src/Client/Timer/Life/Kept.antt =====
-- `take_task` and `clean_pending_tasks` of `ClientTaskTimer` (stream/src/client/timer.rs) keep its order,
-- and `take_task` moves nothing but the task that it gives.
use occams_rpc.Base.{
  ℕ, suc, ◌≤◌, ◌<◌, ◌≡◌, refl, sym, ap, ◌∙◌, false, ◌&&◌, Bool-cases, Option-cases, inl, inr,
  Option, none, some, List, [], ◌∷◌, arith, ltb, leb, ◌==◌,
}
use occams_rpc.Base.Result.{ok}
use occams_rpc.Client.Map.{lookup, removed, Over, Under, removed-none}
use occams_rpc.Client.Timer.{
  Poll, ready, pending, Timer, drain, poll_sent_task, take_task, take_registered, sent_searched,
  taken_delayed, take_awaited, wait_reg_task, emptied, clean_pending_tasks,
}
use occams_rpc.Client.Timer.Order.{IsOrdered, Layered, Keyed, AllKeyed}
use occams_rpc.Client.Timer.Held.{held, drain-IsOrdered}
use occams_rpc.Client.Timer.Take.{take_registered_lem, entries-lookup, held-drain}

module _ {T : Type 0} (seq : T → ℕ) where
  removed-Over : (k b : ℕ) (m : List (ℕ × T)) → Over b m → Over b (removed k m)
  removed-Over k b [] o = tt
  removed-Over k b ((l, x) ∷ m) o = elim (Bool-cases (l == k)) [
    | inl e ↦ rw e o.1
    | inr e ↦ rw e (o.0, removed-Over k b m o.1)
  ]

  removed-Under : (k b : ℕ) (m : List (ℕ × T)) → Under b m → Under b (removed k m)
  removed-Under k b [] o = tt
  removed-Under k b ((l, x) ∷ m) o = elim (Bool-cases (l == k)) [
    | inl e ↦ rw e o.1
    | inr e ↦ rw e (o.0, removed-Under k b m o.1)
  ]

  removed-Keyed : (k : ℕ) (m : List (ℕ × T)) → Keyed seq m → Keyed seq (removed k m)
  removed-Keyed k [] o = tt
  removed-Keyed k ((l, x) ∷ m) o = elim (Bool-cases (l == k)) [
    | inl e ↦ rw e o.2
    | inr e ↦ rw e (o.0, o.1, removed-Keyed k m o.2)
  ]

  taken_delayed-Layered :
      (k low top : ℕ) (ms : List (List (ℕ × T)))
      → Layered seq low top ms
      → Layered seq low top (taken_delayed seq k ms).1
  taken_delayed-Layered k low top [] l = l
  taken_delayed-Layered k low top (m ∷ ms) l = elim (Option-cases (lookup k m)) [
    | inl absent ↦ rw absent (l.0, l.1, l.2, l.3, taken_delayed-Layered k low l.0 ms l.4)
    | inr present ↦
        rw present.1 (l.0, l.1, removed-Over k l.0 m l.2, removed-Under k top m l.3, l.4)
  ]

  taken_delayed-AllKeyed :
      (k : ℕ) (ms : List (List (ℕ × T))) → AllKeyed seq ms → AllKeyed seq (taken_delayed seq k ms).1
  taken_delayed-AllKeyed k [] l = l
  taken_delayed-AllKeyed k (m ∷ ms) l = elim (Option-cases (lookup k m)) [
    | inl absent ↦ rw absent (l.0, taken_delayed-AllKeyed k ms l.1)
    | inr present ↦ rw present.1 (removed-Keyed k m l.0, l.1)
  ]

  sent_searched-IsOrdered :
      (k : ℕ) (t : Timer T) (o : Option T)
      → IsOrdered seq t
      → IsOrdered seq (sent_searched seq k t o).1
  sent_searched-IsOrdered k t (some x) i =
      let l = i.layered in
      record {
        layered = (
          l.0,
          l.1,
          removed-Over k l.0 t.sent_tasks l.2,
          removed-Under k (suc t.processed_seq) t.sent_tasks l.3,
          l.4,
        );
        keyed = (removed-Keyed k t.sent_tasks i.keyed.0, i.keyed.1);
        rising = i.rising;
      }
  sent_searched-IsOrdered k t none i =
      let l = i.layered in
      record {
        layered = (
          l.0,
          l.1,
          l.2,
          l.3,
          taken_delayed-Layered k t.min_delay_seq l.0 t.delay_tasks_queue l.4,
        );
        keyed = (i.keyed.0, taken_delayed-AllKeyed k t.delay_tasks_queue i.keyed.1);
        rising = i.rising;
      }

  -- What `take_task` does to what is held: nothing, but for the task that it gives.
  abbrev pub Takes : ℕ → Timer T → Poll (Option T) × Timer T → Type 0
  Takes k t (pending, t') = held seq t' ≡ held seq t
  Takes k t (ready none, t') = held seq t' ≡ held seq t
  Takes k t (ready (some x), t') =
      (lookup k (held seq t) ≡ some x) × (held seq t' ≡ removed k (held seq t))

  Answers-Takes :
      (k : ℕ) (t : Timer T) (a : Option T) (t' : Timer T)
      → a ≡ lookup k (held seq t)
      → held seq t' ≡ removed k (held seq t)
      → Takes k t (ready a, t')
  Answers-Takes k t none t' e h = h ∙ removed-none k (held seq t) (sym e)
  Answers-Takes k t (some x) t' e h = (sym e, h)

  -- Both at once, of one outcome.
  abbrev pub Keeps : ℕ → Timer T → Poll (Option T) × Timer T → Type 0
  Keeps k t (a, t') = IsOrdered seq t' × Takes k t (a, t')

  taken-Keeps :
      (k : ℕ) (t u : Timer T)
      → IsOrdered seq u
      → (take_registered seq k u).0 ≡ lookup k (held seq t)
      → held seq (take_registered seq k u).1 ≡ removed k (held seq t)
      → Keeps k t (take_awaited seq k (ready (ok tt), u))
  taken-Keeps k t u o a h = (
    sent_searched-IsOrdered k u (lookup k u.sent_tasks) o,
    Answers-Takes k t (take_registered seq k u).0 (take_registered seq k u).1 a h,
  )

  here-Keeps :
      (k : ℕ) (t : Timer T)
      → IsOrdered seq t
      → k ≤ t.processed_seq
      → Keeps k t (take_awaited seq k (ready (ok tt), t))
  here-Keeps k t o h =
      let l = take_registered_lem seq k t (entries-lookup seq k t o h) in
      taken-Keeps k t t o l.0 l.1

  drained-Keeps :
      (k : ℕ) (t : Timer T)
      → IsOrdered seq t
      → k ≤ (drain seq t).processed_seq
      → Keeps k t (take_awaited seq k (ready (ok tt), drain seq t))
  drained-Keeps k t o h =
      let d = (drain-IsOrdered seq t o).0 in
      let l = take_registered_lem seq k (drain seq t) (entries-lookup seq k (drain seq t) d h) in
      let e = held-drain seq t o in
      taken-Keeps k t (drain seq t) d (l.0 ∙ ap (lookup k) e) (l.1 ∙ ap (removed k) e)

  waited-Keeps :
      (k : ℕ) (t : Timer T)
      → IsOrdered seq t
      → t.processed_seq < k
      → Keeps k t (take_awaited seq k (wait_reg_task seq k t))
  unfolding wait_reg_task
  waited-Keeps k t o h =
      let ahead : leb k t.processed_seq ≡ false = ground arith in
      rw ahead (elim (Bool-cases t.reg_stopped_flag) [
        | inl stopped ↦ simp stopped (o, refl)
        | inr open_ ↦
            simp open_
              (elim (Bool-cases ((poll_sent_task seq t).0 && leb k (drain seq t).processed_seq)) [
                | inl there ↦ rw there (drained-Keeps k t o (ground arith))
                | inr later ↦ rw later ((drain-IsOrdered seq t o).0, held-drain seq t o)
              ])
      ])

  -- `take_task` on any ordered timer, whatever number it is asked for.
  pub take_task-Keeps : (k : ℕ) (t : Timer T) → IsOrdered seq t → Keeps k t (take_task seq k t)
  unfolding take_task
  take_task-Keeps k t o = elim (Bool-cases (ltb k t.min_delay_seq)) [
    | inl old ↦ rw old (o, refl)
    | inr young ↦ rw young (elim (Bool-cases (ltb t.processed_seq k)) [
      | inl ahead ↦ rw ahead (waited-Keeps k t o (ground arith))
      | inr known ↦ rw known (here-Keeps k t o (ground arith))
    ])
  ]

  emptied-Layered :
      (low top : ℕ) (ms : List (List (ℕ × T)))
      → Layered seq low top ms
      → Layered seq low top (emptied seq ms)
  emptied-Layered low top [] l = l
  emptied-Layered low top (m ∷ ms) l = (l.0, l.1, tt, tt, emptied-Layered low l.0 ms l.4)

  emptied-AllKeyed : (ms : List (List (ℕ × T))) → AllKeyed seq (emptied seq ms)
  emptied-AllKeyed [] = tt
  emptied-AllKeyed (m ∷ ms) = (tt, emptied-AllKeyed ms)

  pub clean_pending_tasks-IsOrdered :
      (t : Timer T) → IsOrdered seq t → IsOrdered seq (clean_pending_tasks seq t).1
  unfolding clean_pending_tasks
  clean_pending_tasks-IsOrdered t o =
      let d = drain seq t in
      let i = (drain-IsOrdered seq t o).0 in
      let l = i.layered in
      record {
        layered = (l.0, l.1, tt, tt, emptied-Layered d.min_delay_seq l.0 d.delay_tasks_queue l.4);
        keyed = (tt, emptied-AllKeyed d.delay_tasks_queue);
        rising = i.rising;
      }
