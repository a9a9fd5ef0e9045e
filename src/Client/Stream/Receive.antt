-- ===== src/Client/Stream/Receive.antt =====
-- `recv_one_resp` and `recv_some` (stream/src/client/stream.rs): how the receiving side ends.
use occams_rpc.Base.{
  ℕ, zero, suc, ◌≡◌, refl, Bool, true, false, ◌||◌, Bool-cases, inl, inr, Option, none, some,
}
use occams_rpc.Base.Result.{Result, ok, err}
use occams_rpc.Error.{RpcIntErr}
use occams_rpc.Client.Timer.{check_pending_tasks_empty}
use occams_rpc.Client.Stream.{
  Done, Stream, after_closed_read, after_open_read, recv_one_resp, stamped, recv_times, recv_some,
}

module _ {T : Type 0} where
  -- It still reads, or it has failed with IO; it has not returned well.
  abbrev pub ReadsOrFails : Option (Done) × Stream T → Type 0
  ReadsOrFails (none, s) = Unit
  ReadsOrFails (some (err e), s) = e ≡ RpcIntErr.io
  ReadsOrFails (some (ok u), s) = ⊥

module _ {T : Type 0} (seq_of : T → ℕ)
    (read_resp : Bool → Stream T → Result RpcIntErr Bool × Stream T) where
  after_closed-Fails :
      (again : Stream T → Option (Done) × Stream T)
      → ((s : Stream T) → ReadsOrFails (again s))
      → (r : Result RpcIntErr Bool × Stream T)
      → ReadsOrFails (after_closed_read seq_of read_resp again r)
  after_closed-Fails again h (ok b, s) = h s
  after_closed-Fails again h (err e, s) = refl

  after_open-Fails :
      (again : Stream T → Option (Done) × Stream T)
      → ((s : Stream T) → ReadsOrFails (again s))
      → (r : Result RpcIntErr Bool × Stream T)
      → ReadsOrFails (after_open_read seq_of read_resp again r)
  after_open-Fails again h (ok true, s) = h s
  after_open-Fails again h (ok false, s) = h (record s { closed = true })
  after_open-Fails again h (err e, s) = refl

  -- However long it reads and whatever the transport gives, the receiver of one response never returns
  -- well: it reads on after each response, and ends only with the error IO.
  pub recv_one_resp-never_ok :
      (fuel : ℕ) (s : Stream T) → ReadsOrFails (recv_one_resp seq_of read_resp fuel s)
  recv_one_resp-never_ok zero s = tt
  recv_one_resp-never_ok (suc fuel) s = elim (Bool-cases s.closed) [
    | inl closed ↦ simp closed (
        let checked = check_pending_tasks_empty seq_of s.timer in
        elim (Bool-cases (checked.0 || s.has_err)) [
          | inl ends ↦ simp ends refl
          | inr reads ↦ simp reads (
              after_closed-Fails (recv_one_resp seq_of read_resp fuel) (recv_one_resp-never_ok fuel)
                _)
        ])
    | inr is_open ↦
        simp is_open
          (after_open-Fails (recv_one_resp seq_of read_resp fuel) (recv_one_resp-never_ok fuel) _)
  ]

  stamped-none :
      (again : Stream T → ℕ → Option Done × Stream T × ℕ) (stamps : ℕ) (r : Option Done × Stream T)
      → ReadsOrFails r
      → (stamped seq_of read_resp again stamps r).2 ≡ stamps
  stamped-none again stamps (none, s) h = refl
  stamped-none again stamps (some (err e), s) h = refl
  stamped-none again stamps (some (ok u), s) h = absurd h

  -- So `last_resp_ts` is never stored, whatever responses come.
  pub recv_some_never_stamps : (fuel : ℕ) (s : Stream T) → (recv_some seq_of read_resp fuel s).2 ≡ 0
  unfolding recv_some
  recv_some_never_stamps fuel s =
      stamped-none (recv_times seq_of read_resp 19 fuel) 0 (recv_one_resp seq_of read_resp fuel s)
        (recv_one_resp-never_ok fuel s)
