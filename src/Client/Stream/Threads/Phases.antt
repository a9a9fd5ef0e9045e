-- ===== src/Client/Stream/Threads/Phases.antt =====
-- What the receiver of a ClientStream (stream/src/client/stream.rs) has left to do, when the sender makes
-- a step.
use occams_rpc.Base.{
  ℕ, suc, ◌≡◌, refl, Bool, true, false, Bool-cases, inl, inr, List, ◌∷◌, arith, ◌==◌,
}
use occams_rpc.Client.Timer.{Timer, reg_task}
use occams_rpc.Client.Stream.Threads.{
  Sender, idle, writing, written, Receiver, running, cleaning, returned,
}
use occams_rpc.Client.Stream.Threads.Sound.{Phase, NotSending, Fresh, Settled}

module _ {T : Type 0} (seq_of : T → ℕ) where
  -- The flag `closed` may only be set.
  pub Phase-closed :
      (r : Receiver) (b : Bool) (t : Timer T) (x : Sender T)
      → Phase seq_of r b t x
      → Phase seq_of r true t x
  Phase-closed running b t x p = tt
  Phase-closed cleaning b t x p = (refl, p.1, p.2)
  Phase-closed returned b t x p = (refl, p.1, p.2)

  -- Counter and flag of the timer are no part of the phase, and neither is a sender without a number.
  pub Phase-idle :
      (r : Receiver) (b : Bool) (t : Timer T) (x y : Sender T) (c : ℕ) (f : Bool)
      → NotSending seq_of y
      → Phase seq_of r b t x
      → Phase seq_of r b (record t { pending_task_count = c; reg_stopped_flag = f }) y
  Phase-idle running b t x y c f n p = tt
  Phase-idle cleaning b t x y c f n p = (p.0, p.1, p.2)
  Phase-idle returned b t x y c f n p = (p.0, p.1, n)

  -- While the stream is open the receiver is in its loop.
  pub Phase-open :
      (r : Receiver) (b : Bool) (t u : Timer T) (x y : Sender T)
      → b ≡ false
      → Phase seq_of r b t x
      → Phase seq_of r b u y
  Phase-open running b t u x y e p = tt
  Phase-open cleaning b t u x y e p = absurd (ground (arith, e, p.0))
  Phase-open returned b t u x y e p = absurd (ground (arith, e, p.0))

  -- A numbered task holds the receiver back.
  pub Settled-sending :
      (r : Receiver) (b : Bool) (tm : Timer T) (x t : T) (xs : List T)
      → Phase seq_of r b tm (writing t)
      → Settled seq_of r (x ∷ xs)
  Settled-sending running b tm x t xs p = tt
  Settled-sending cleaning b tm x t xs p = tt
  Settled-sending returned b tm x t xs p = absurd p.2

  pub Phase-registers :
      (r : Receiver) (b : Bool) (tm : Timer T) (t : T)
      → Phase seq_of r b tm (written t)
      → Phase seq_of r b (reg_task seq_of t tm) idle
  Phase-registers running b tm t p = tt
  Phase-registers cleaning b tm t p = (p.0, p.1, p.2)
  Phase-registers returned b tm t p = absurd p.2

  pub Phase-writes :
      (r : Receiver) (b : Bool) (tm : Timer T) (t : T)
      → Phase seq_of r b tm (writing t)
      → Phase seq_of r b tm (written t)
  Phase-writes running b tm t p = tt
  Phase-writes cleaning b tm t p = p
  Phase-writes returned b tm t p = p

  -- A new number is given.
  pub Fresh-suc :
      (xs : List T) (m : ℕ) (x : T) (l : ℕ)
      → seq_of x ≡ m
      → l ≡ suc m
      → Fresh seq_of xs m
      → Fresh seq_of (x ∷ xs) l
  Fresh-suc xs m x l e n (f, g) = (
    λ k. elim (Bool-cases (seq_of x == k)) [
      | inl same ↦ rw same (omega (arith, g k (ground (arith, e, same))))
      | inr other ↦ rw other (omega (arith, f k))
    ],
    λ k le. elim (Bool-cases (seq_of x == k)) [
      | inl same ↦ absurd (ground (arith, e, n, le, same))
      | inr other ↦ rw other (omega (arith, g k (omega (arith, n, le))))
    ],
  )
