-- ===== src/Io/Write/Loops.antt =====
-- What `write_all` (core/src/io/buf_io.rs) hands to its writer.
use occams_rpc.Base.{
  subst, ℕ, zero, suc, ◌+◌, ◌≤◌, ◌<◌, ◌≡◌, ◌≢◌, sym, ap, ◌∙◌, List, [], ◌∷◌, ◌++◌, arith, length,
  append_assoc, append-nil, take, drop, take-append-drop, length-drop,
}
use occams_rpc.Base.Result.{Result, ok, err}
use occams_rpc.Io.{
  IoErr, interrupted, unexpected_eof, write_zero, other, out_of_fuel, Sink, Accepts,
}
use occams_rpc.Io.Write.{Done, after_write, write_all}

module _ {S : Type 0} (snk : Sink S) where
  open snk use {write, content, Valid, writes}

  -- All bytes, in order; of a failed write nothing is known.
  abbrev pub Wrote : List ℕ → S → Done × S → Type 0
  Wrote b s (ok u, s') = (content s' ≡ content s ++ b) × Valid s'
  Wrote b s (err e, s') = Valid s'

  pub Wrote-behind :
      (a b : List ℕ) (s s' : S) (out : Done × S)
      → content s' ≡ content s ++ a
      → Wrote b s' out
      → Wrote (a ++ b) s out
  Wrote-behind a b s s' (ok u, t) c w =
      (w.0 ∙ (ap (λ x. x ++ b) c ∙ append_assoc (content s) a b), w.1)
  Wrote-behind a b s s' (err e, t) c w = w

  after_write-Wrote :
      (again : List ℕ → S → Done × S) (b : List ℕ) (s : S) (r : Result IoErr ℕ) (s' : S)
      → ((c : List ℕ) (u : S) → Valid u → Wrote c u (again c u))
      → Accepts content Valid b s (r, s')
      → Wrote b s (after_write again b (r, s'))
  after_write-Wrote again b s (ok zero) s' ih w = w.2
  after_write-Wrote again b s (ok (suc n)) s' ih w =
      subst (λ x. Wrote x s (again (drop (suc n) b) s')) (take-append-drop (suc n) b)
        (Wrote-behind (take (suc n) b) (drop (suc n) b) s s' (again (drop (suc n) b) s') w.1
          (ih (drop (suc n) b) s' w.2))
  after_write-Wrote again b s (err interrupted) s' ih w =
      Wrote-behind [] b s s' (again b s') (w.0 ∙ sym (append-nil (content s))) (ih b s' w.1)
  after_write-Wrote again b s (err unexpected_eof) s' ih w = w
  after_write-Wrote again b s (err write_zero) s' ih w = w
  after_write-Wrote again b s (err other) s' ih w = w
  after_write-Wrote again b s (err out_of_fuel) s' ih w = w

  -- `write_all`, when it succeeds, has handed exactly the bytes of its buffer to the writer, in their
  -- order.
  pub write_all_lem : (fuel : ℕ) (b : List ℕ) (s : S) → Valid s → Wrote b s (write_all snk fuel b s)
  unfolding write_all
  write_all_lem fuel [] s v = (sym (append-nil (content s)), v)
  write_all_lem zero (x ∷ b) s v = v
  write_all_lem (suc fuel) (x ∷ b) s v =
      after_write-Wrote (write_all snk fuel) (x ∷ b) s (write (x ∷ b) s).0 (write (x ∷ b) s).1
        (write_all_lem fuel) (writes (x ∷ b) s v)

  -- The loop deals with interruptions itself.
  abbrev pub Final : Done → Type 0
  Final (ok u) = Unit {0}
  Final (err e) = e ≢ interrupted

  after_write-Final :
      (again : List ℕ → S → Done × S) (b : List ℕ) (r : Result IoErr ℕ) (s' : S)
      → ((c : List ℕ) (u : S) → Final (again c u).0)
      → Final (after_write again b (r, s')).0
  after_write-Final again b (ok zero) s' ih = λ e. cc
  after_write-Final again b (ok (suc n)) s' ih = ih _ s'
  after_write-Final again b (err interrupted) s' ih = ih b s'
  after_write-Final again b (err unexpected_eof) s' ih = λ e. cc
  after_write-Final again b (err write_zero) s' ih = λ e. cc
  after_write-Final again b (err other) s' ih = λ e. cc
  after_write-Final again b (err out_of_fuel) s' ih = λ e. cc

  pub write_all-Final : (fuel : ℕ) (b : List ℕ) (s : S) → Final (write_all snk fuel b s).0
  unfolding write_all
  write_all-Final fuel [] s = tt
  write_all-Final zero (x ∷ b) s = λ e. cc
  write_all-Final (suc fuel) (x ∷ b) s =
      after_write-Final (write_all snk fuel) (x ∷ b) (write (x ∷ b) s).0 (write (x ∷ b) s).1
        (write_all-Final fuel)

  -- The loop ended by itself.
  abbrev pub Ran : Done → Type 0
  Ran (ok u) = Unit {0}
  Ran (err e) = e ≢ out_of_fuel

  -- A writer that is interrupted only so often.
  abbrev pub Calm : (S → ℕ) → S → Result IoErr ℕ × S → Type 0
  Calm patience s (ok n, s') = patience s' ≤ patience s
  Calm patience s (err interrupted, s') = patience s' < patience s
  Calm patience s (err e, s') = e ≢ out_of_fuel

  module _ (patience : S → ℕ) (calm : (b : List ℕ) (s : S) → Calm patience s (write b s)) where
    after_write-Ran :
        (again : List ℕ → S → Done × S) (fuel : ℕ) (x : ℕ) (b : List ℕ) (s : S) (r : Result IoErr ℕ)
        (s' : S)
        → length (x ∷ b) + patience s ≤ suc fuel
        → ((c : List ℕ) (u : S) → length c + patience u ≤ fuel → Ran (again c u).0)
        → Calm patience s (r, s')
        → Ran (after_write again (x ∷ b) (r, s')).0
    after_write-Ran again fuel x b s (ok zero) s' h ih c = λ e. cc
    after_write-Ran again fuel x b s (ok (suc n)) s' h ih c =
        ih (drop (suc n) (x ∷ b)) s' (omega (arith, length-drop n b))
    after_write-Ran again fuel x b s (err interrupted) s' h ih c = ih (x ∷ b) s' (omega arith)
    after_write-Ran again fuel x b s (err unexpected_eof) s' h ih c = c
    after_write-Ran again fuel x b s (err write_zero) s' h ih c = c
    after_write-Ran again fuel x b s (err other) s' h ih c = c
    after_write-Ran again fuel x b s (err out_of_fuel) s' h ih c = c

    -- As many rounds as bytes are to be written and interruptions can come are enough for `write_all`
    -- to end.
    pub write_all_total :
        (fuel : ℕ) (b : List ℕ) (s : S)
        → length b + patience s ≤ fuel
        → Ran (write_all snk fuel b s).0
    unfolding write_all
    write_all_total fuel [] s h = tt
    write_all_total zero (x ∷ b) s h = absurd (omega arith)
    write_all_total (suc fuel) (x ∷ b) s h =
        after_write-Ran (write_all snk fuel) fuel x b s (write (x ∷ b) s).0 (write (x ∷ b) s).1 h
          (write_all_total fuel) (calm (x ∷ b) s)
