-- ===== src/Io/Write.antt =====
-- core/src/io/buf_io.rs: `write_all` and `AsyncBufWrite`.
pub mod Loops
pub mod Front
use occams_rpc.Base.{
  ℕ, zero, suc, ◌+◌, ◌-◌, ◌≤◌, ◌≡◌, Bool, true, false, List, [], ◌∷◌, ◌++◌, length, take, drop,
  replicate, ltb, leb, if◌then◌else◌,
}
use occams_rpc.Base.Result.{Result, ok, err}
use occams_rpc.Io.{IoErr, interrupted, write_zero, out_of_fuel, Sink}

abbrev pub Done : Type 0
Done = Result IoErr (Unit {0})

module _ {S : Type 0} where
  -- One round of `write_all`, with what the next round does.
  abbrev pub after_write : (List ℕ → S → Done × S) → List ℕ → Result IoErr ℕ × S → Done × S
  after_write again b (ok zero, s) = (err write_zero, s)
  after_write again b (ok (suc n), s) = again (drop (suc n) b) s
  after_write again b (err interrupted, s) = again b s
  after_write again b (err e, s) = (err e, s)

  module _ (snk : Sink S) where
    open snk use {write}

    -- `write_all`
    unfoldable pub write_all : ℕ → List ℕ → S → Done × S
    write_all fuel [] s = (ok tt, s)
    write_all zero (x ∷ b) s = (err out_of_fuel, s)
    write_all (suc fuel) (x ∷ b) s = after_write (write_all fuel) (x ∷ b) (write (x ∷ b) s)

-- `AsyncBufWrite`: the memory, and how much of it waits to be written.
pub record AsyncBufWrite : Type 0 where
  pub mem : List ℕ
  pub pos : ℕ

pub record Buffered (S : Type 0) : Type 0 where
  pub front : AsyncBufWrite
  pub inner : S

-- `AsyncBufWrite::new`, of a capacity that is not 0 (the code panics at 0).
pub new_write : ℕ → AsyncBufWrite
new_write capacity = record { mem = replicate capacity 0; pos = 0 }

module _ {S : Type 0} (snk : Sink S) (fuel : ℕ) where
  open snk use {write}

  -- The end of `flush`: only a complete write empties the buffer.
  abbrev pub flushed : AsyncBufWrite → Done × S → Done × Buffered S
  flushed f (ok u, s) = (ok u, record { front = record f { pos = 0 }; inner = s })
  flushed f (err e, s) = (err e, record { front = f; inner = s })

  -- `flush`; `fuel` bounds the rounds of its `write_all`.
  unfoldable pub flush : Buffered S → Done × Buffered S
  unfolding write_all
  flush w =
      if ltb 0 w.front.pos
      then flushed w.front (write_all snk fuel (take w.front.pos w.front.mem) w.inner)
      else (ok tt, w)

  -- The caller's bytes go straight to the writer.
  abbrev pub direct : AsyncBufWrite → Result IoErr ℕ × S → Result IoErr ℕ × Buffered S
  direct f (r, s) = (r, record { front = f; inner = s })

  abbrev pub write_direct : List ℕ → Done × Buffered S → Result IoErr ℕ × Buffered S
  write_direct b (ok u, w) = direct w.front (write b w.inner)
  write_direct b (err e, w) = (err e, w)

  -- They are copied behind those that wait.
  abbrev pub copied : List ℕ → Done × Buffered S → Result IoErr ℕ × Buffered S
  copied b (ok u, w) = (
    ok (length b),
    record w {
      front = record {
        mem = take w.front.pos w.front.mem ++ (b ++ drop (w.front.pos + length b) w.front.mem);
        pos = w.front.pos + length b;
      };
    },
  )
  copied b (err e, w) = (err e, w)

  -- `write_buffered`
  unfoldable pub write_buffered : List ℕ → Buffered S → Result IoErr ℕ × Buffered S
  unfolding flush
  write_buffered b w =
      if leb (length w.front.mem) (length b)
      then write_direct b (flush w)
      else copied b
          (if ltb (length w.front.mem - w.front.pos) (length b) then flush w else (ok tt, w))

  -- What was accepted: what the writer has, then what waits.
  abbrev pub content_buffered : Buffered S → List ℕ
  content_buffered w = snk.content w.inner ++ take w.front.pos w.front.mem
