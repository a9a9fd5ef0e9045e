-- ===== src/Client/Stream/Send.antt =====
-- `send_task` (stream/src/client/stream.rs): where the task goes on each branch, and the order in which
-- tasks are registered.
use occams_rpc.Base.{
  ℕ, suc, ◌+◌, ◌^◌, ◌%◌, ◌≤◌, ◌<◌, ◌≡◌, refl, Bool, true, false, ◌||◌, Bool-cases, inl, inr, ◌⊎◌,
  List, [], ◌∷◌, ◌++◌, arith,
}
use occams_rpc.Base.Int.{IsU64}
use occams_rpc.Base.Result.{ok, err}
use occams_rpc.Error.{RpcIntErr}
use occams_rpc.Client.Timer.{fetch_add_one, fetch_sub_one}
use occams_rpc.Client.Timer.Order.{IsOrdered, Layered, AllKeyed, Rising}
use occams_rpc.Client.Stream.{Stream, Outcome, send_request, send_task, nearly_full}

module _ {T : Type 0} (seq_of : T → ℕ) where
  -- The waiting tasks rise from the one bound, and stay below the other.
  abbrev pub Rises : ℕ → List T → ℕ → Type 0
  Rises b [] n = b ≤ n
  Rises b (x ∷ xs) n = (b ≤ seq_of x) × Rises (suc (seq_of x)) xs n

  pub Rises-Rising : (b : ℕ) (xs : List T) (n : ℕ) → Rises b xs n → Rising seq_of b xs
  Rises-Rising b [] n r = tt
  Rises-Rising b (x ∷ xs) n r = (r.0, Rises-Rising (suc (seq_of x)) xs n r.1)

  pub Rises-suc : (b : ℕ) (xs : List T) (n : ℕ) → Rises b xs n → Rises b xs (suc n)
  Rises-suc b [] n r = omega (arith, r)
  Rises-suc b (x ∷ xs) n r = (r.0, Rises-suc (suc (seq_of x)) xs n r.1)

  pub Rises-append :
      (b : ℕ) (xs : List T) (n : ℕ) (x : T)
      → seq_of x ≡ n
      → Rises b xs n
      → Rises b (xs ++ (x ∷ [])) (suc n)
  Rises-append b [] n x e r = (omega (arith, e, r), omega (arith, e))
  Rises-append b (y ∷ ys) n x e r = (r.0, Rises-append (suc (seq_of y)) ys n x e r.1)

  -- The timer is in order, and all its numbers lie below the stream's next one.
  pub record InOrder (s : Stream T) : Type 0 where
    pub layered :
        Layered seq_of s.timer.min_delay_seq
          (suc s.timer.processed_seq)
          (s.timer.sent_tasks ∷ s.timer.delay_tasks_queue)
    pub keyed : AllKeyed seq_of (s.timer.sent_tasks ∷ s.timer.delay_tasks_queue)
    pub rises : Rises (suc s.timer.processed_seq) s.timer.pending_tasks s.seq

  pub InOrder-IsOrdered : (s : Stream T) → InOrder s → IsOrdered seq_of s.timer
  InOrder-IsOrdered s o = record {
    layered = o.layered;
    keyed = o.keyed;
    rising = Rises-Rising (suc s.timer.processed_seq) s.timer.pending_tasks s.seq o.rises;
  }

  module _ (set_seq : ℕ → T → T) (seq-set_seq : (n : ℕ) (x : T) → seq_of (set_seq n x) ≡ n)
      (encodes : T → Bool) (writes : Bool → T → Bool) where
    -- Sent: the task, under its new number, waits for the timer, behind all that were registered before
    -- it, it is counted once as pending and once in flight, and no task ends.
    -- Not sent: the error is IO, the stream is closed, nothing is registered, and either the task ends
    -- once with IO and the pending count is what it was; or the codec refused it, and then it does not
    -- end, and is counted as pending for good.
    abbrev pub Sends : T → Bool → Stream T → Outcome T → Type 0
    Sends task need_flush s (ok u, out, s') =
        (out ≡ [])
        × (encodes (set_seq s.seq task) ≡ true)
        × (writes (need_flush || nearly_full s.throttler) (set_seq s.seq task) ≡ true)
        × (s'.timer.pending_tasks ≡ s.timer.pending_tasks ++ (set_seq s.seq task ∷ []))
        × (s'.timer.pending_task_count ≡ fetch_add_one s.timer.pending_task_count)
        × (s'.throttler.left ≡ s.throttler.left + 1)
        × InOrder s'
    Sends task need_flush s (err e, out, s') =
        (e ≡ RpcIntErr.io)
        × (s'.closed ≡ true)
        × (s'.timer.pending_tasks ≡ s.timer.pending_tasks)
        × (s'.throttler.left ≡ s.throttler.left)
        × InOrder s'
        × ((((out ≡ (task, RpcIntErr.io) ∷ []) ⊎ (out ≡ (set_seq s.seq task, RpcIntErr.io) ∷ []))
              × (s'.timer.pending_task_count ≡ s.timer.pending_task_count))
            ⊎ ((encodes (set_seq s.seq task) ≡ false)
                × (out ≡ [])
                × (s'.timer.pending_task_count ≡ fetch_add_one s.timer.pending_task_count)))

    counted_back : (n : ℕ) → IsU64 n → fetch_sub_one (fetch_add_one n) ≡ n
    counted_back n h = omega (arith, h)

    -- On an ordered stream whose counters have not come to their end, sending a task does one of three
    -- things. It registers the task, in order, and counts it; or it fails with IO, closes the stream and
    -- hands the task to `error_handle` once, the pending count being what it was; or, when the codec
    -- refuses the task, it fails with IO and closes the stream, but no `error_handle` sees the task and
    -- the pending count stays one too high. The stream is in order afterwards in each case.
    pub send_task_lem :
        (task : T) (need_flush : Bool) (s : Stream T)
        → InOrder s
        → suc s.seq < 2 ^ 64
        → IsU64 s.timer.pending_task_count
        → Sends task need_flush s (send_task seq_of set_seq encodes writes task need_flush s)
    unfolding send_task send_request
    send_task_lem task need_flush s o h c =
        let t = set_seq s.seq task in
        let next : (s.seq + 1) % 2 ^ 64 ≡ suc s.seq = omega (arith, h) in
        let later : Rises (suc s.timer.processed_seq) s.timer.pending_tasks ((s.seq + 1) % 2 ^ 64) =
          rw next (Rises-suc (suc s.timer.processed_seq) s.timer.pending_tasks s.seq o.rises) in
        elim (Bool-cases s.closed) [
          | inl closed ↦ simp closed (
            refl,
            refl,
            refl,
            refl,
            record { layered = o.layered; keyed = o.keyed; rises = o.rises },
            inl (inl refl, counted_back s.timer.pending_task_count c),
          )
          | inr is_open ↦ simp is_open (elim (Bool-cases (encodes t)) [
            | inr refused ↦ simp refused (
              refl,
              refl,
              refl,
              refl,
              record { layered = o.layered; keyed = o.keyed; rises = later },
              inr (refl, refl, refl),
            )
            | inl encoded ↦
                simp encoded (elim (Bool-cases (writes (need_flush || nearly_full s.throttler) t)) [
                  | inl written ↦ simp written (
                    refl,
                    encoded,
                    refl,
                    refl,
                    refl,
                    refl,
                    record {
                      layered = o.layered;
                      keyed = o.keyed;
                      rises = rw next (
                          Rises-append (suc s.timer.processed_seq) s.timer.pending_tasks s.seq t
                            (seq-set_seq s.seq task) o.rises);
                    },
                  )
                  | inr unwritten ↦ simp unwritten (
                    refl,
                    refl,
                    refl,
                    refl,
                    record { layered = o.layered; keyed = o.keyed; rises = later },
                    inl (inr refl, counted_back s.timer.pending_task_count c),
                  )
                ])
          ])
        ]
