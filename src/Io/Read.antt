-- ===== src/Io/Read.antt =====
-- core/src/io/buf_io.rs: `read_exact`, `read_at_least` and `AsyncBufRead`.
pub mod Loops
pub mod AtLeast
pub mod Front
use occams_rpc.Base.{
  ℕ, zero, suc, ◌+◌, ◌-◌, ◌≤◌, ◌<◌, ◌≡◌, Bool, true, false, List, [], ◌∷◌, ◌++◌, ◌&&◌, length, take,
  drop, ltb, leb, ◌==◌, min, if◌then◌else◌, replicate, slice,
}
use occams_rpc.Base.Result.{Result, ok, err}
use occams_rpc.Io.{IoErr, interrupted, unexpected_eof, other, out_of_fuel, Source}

-- How a loop ends: with its bytes, or with an error and the bytes that it had taken before.
pub data Got : Type 0 where
  filled : List ℕ → Got
  failed : IoErr → List ℕ → Got

abbrev pub bytes_of : Got → List ℕ
bytes_of (filled b) = b
bytes_of (failed e b) = b

module _ {S : Type 0} where
  -- One round of `read_exact`, with what the next round does.
  abbrev pub after_exact :
      (ℕ → List ℕ → S → Got × S) → ℕ → List ℕ → Result IoErr (List ℕ) × S → Got × S
  after_exact again n got (ok [], s) = (failed unexpected_eof got, s)
  after_exact again n got (ok (x ∷ b), s) = again (n - length (x ∷ b)) (got ++ (x ∷ b)) s
  after_exact again n got (err interrupted, s) = again n got s
  after_exact again n got (err e, s) = (failed e got, s)

  abbrev pub after_at_least : (List ℕ → S → Got × S) → List ℕ → Result IoErr (List ℕ) × S → Got × S
  after_at_least again got (ok [], s) = (failed unexpected_eof got, s)
  after_at_least again got (ok (x ∷ b), s) = again (got ++ (x ∷ b)) s
  after_at_least again got (err interrupted, s) = again got s
  after_at_least again got (err e, s) = (failed e got, s)

  module _ (src : Source S) where
    open src use {read}

    -- `read_exact`: `n` is what is left of the buffer, `got` what it holds already.
    pub read_exact : ℕ → ℕ → List ℕ → S → Got × S
    read_exact fuel zero got s = (filled got, s)
    read_exact zero (suc n) got s = (failed out_of_fuel got, s)
    read_exact (suc fuel) (suc n) got s = after_exact (read_exact fuel) (suc n) got (read (suc n) s)

    -- `read_at_least`: `len` is the size of the buffer.
    pub read_at_least : ℕ → ℕ → ℕ → List ℕ → S → Got × S
    read_at_least zero min_len len got s =
        if ltb (length got) min_len && ltb (length got) len
        then (failed out_of_fuel got, s)
        else (filled got, s)
    read_at_least (suc fuel) min_len len got s =
        let round =
          after_at_least (read_at_least fuel min_len len) got (read (len - length got) s) in
        if ltb (length got) min_len && ltb (length got) len then round else (filled got, s)

-- `AsyncBufRead`: the memory, and the part of it that is filled and not read yet.
pub record AsyncBufRead : Type 0 where
  pub mem : List ℕ
  pub pos : ℕ
  pub cap : ℕ

-- The buffer in front of its reader.
pub record Buffered (S : Type 0) : Type 0 where
  pub front : AsyncBufRead
  pub inner : S

-- `AsyncBufRead::new`, of a capacity that is not 0 (the code panics at 0).
pub new_read : ℕ → AsyncBufRead
new_read capacity = record { mem = replicate capacity 0; pos = 0; cap = 0 }

module _ {S : Type 0} (src : Source S) where
  open src use {read}

  -- A read straight into the caller's buffer.
  abbrev pub direct : AsyncBufRead → Result IoErr (List ℕ) × S → Result IoErr (List ℕ) × Buffered S
  direct f (r, s) = (r, record { front = f; inner = s })

  -- The buffer is filled anew, and its first bytes are copied.
  abbrev pub refilled :
      ℕ → AsyncBufRead → Result IoErr (List ℕ) × S → Result IoErr (List ℕ) × Buffered S
  refilled n f (err e, s) = (err e, record { front = f; inner = s })
  refilled n f (ok b, s) =
      let mem' = b ++ drop (length b) f.mem in
      (
        ok (take (min n (length b)) mem'),
        record { front = record { mem = mem'; pos = min n (length b); cap = length b }; inner = s },
      )

  -- `read_buffered` into a buffer of n bytes.
  pub read_buffered : ℕ → Buffered S → Result IoErr (List ℕ) × Buffered S
  read_buffered n s =
      if ltb s.front.pos s.front.cap
      then (
        ok (slice s.front.pos (min n (s.front.cap - s.front.pos)) s.front.mem),
        record s {
          front = record (s.front) { pos = s.front.pos + min n (s.front.cap - s.front.pos) };
        },
      )
      else if leb (length s.front.mem) n
      then direct s.front (read n s.inner)
      else refilled n s.front (read (length s.front.mem) s.inner)

  -- What is still to come: the rest of the buffer, then what the reader holds.
  abbrev pub content_buffered : Buffered S → List ℕ
  content_buffered s =
      slice s.front.pos (s.front.cap - s.front.pos) s.front.mem ++ src.content s.inner
