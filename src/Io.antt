-- ===== src/Io.antt =====
-- core/src/io: readers and writers, their exact loops, and the buffers in front of them. A reader is
-- any state with a `read`; what it promises is the interface below, which the sockets of the
-- runtimes (not modelled) are taken to keep, and which a buffered one keeps again.
pub mod Read
pub mod Write
pub mod Buffer
use occams_rpc.Base.{ℕ, ◌≤◌, ◌≡◌, List, ◌++◌, length, take}
use occams_rpc.Base.Result.{Result, ok, err}

-- The kinds of `io::Error` that the code tells apart. `out_of_fuel` is none of them: the model's
-- loop was not given enough rounds.
pub data IoErr : Type 0 where
  interrupted unexpected_eof write_zero other out_of_fuel : IoErr

-- What a read of at most n bytes may do to the bytes that are still to come: it takes the first ones
-- off, and a failed read takes none.
abbrev pub Reads :
    {S : Type 0} → (S → List ℕ) → (S → Type 0) → ℕ → S → Result IoErr (List ℕ) × S → Type 0
Reads content Valid n s (ok b, s') = (length b ≤ n) × (content s ≡ b ++ content s') × Valid s'
Reads content Valid n s (err e, s') = (content s' ≡ content s) × Valid s'

-- `AsyncRead`
pub record Source (S : Type 0) : Type 1 where
  pub read : ℕ → S → Result IoErr (List ℕ) × S
  pub content : S → List ℕ
  pub Valid : S → Type 0
  pub reads : (n : ℕ) (s : S) → Valid s → Reads content Valid n s (read n s)

-- What a write may do to the bytes that were accepted so far: it adds the first ones of its own. A
-- write that was interrupted adds none; of one that failed otherwise nothing is known.
abbrev pub Accepts :
    {S : Type 0} → (S → List ℕ) → (S → Type 0) → List ℕ → S → Result IoErr ℕ × S → Type 0
Accepts content Valid b s (ok n, s') =
    (n ≤ length b) × (content s' ≡ content s ++ take n b) × Valid s'
Accepts content Valid b s (err interrupted, s') = (content s' ≡ content s) × Valid s'
Accepts content Valid b s (err e, s') = Valid s'

-- `AsyncWrite`
pub record Sink (S : Type 0) : Type 1 where
  pub write : List ℕ → S → Result IoErr ℕ × S
  pub content : S → List ℕ
  pub Valid : S → Type 0
  pub writes : (b : List ℕ) (s : S) → Valid s → Accepts content Valid b s (write b s)
