-- ===== src/Tcp.antt =====
-- transport/tcp/src: how whole requests and responses are read from a connection. What the reads of
-- core/src/io deliver is taken here as the sequence of bytes that still arrives.
pub mod Server
pub mod Write
pub mod Client
pub mod RequestTrip
pub mod Addr
use occams_rpc.Base.{
  ℕ, ◌+◌, ◌≤◌, ◌≡◌, refl, Bool, Option, some, none, List, ◌++◌, arith, length, take, drop, ltb,
  if◌then◌else◌, length-append, take-append_length, drop-append_length,
}

-- `read_exact` of a buffer of n bytes: the bytes and what follows them, or `none` where the stream
-- ends, fails or times out before.
unfoldable pub read_exact : ℕ → List ℕ → Option (List ℕ × List ℕ)
read_exact n s = if ltb (length s) n then none else some (take n s, drop n s)

-- A run of bytes is read as a whole.
pub read_exact-append :
    (n : ℕ) (x rest : List ℕ) → length x ≡ n → read_exact n (x ++ rest) ≡ some (x, rest)
unfolding read_exact
read_exact-append n x rest h =
    ground
      (arith, length-append x rest, take-append_length n x rest h, drop-append_length n x rest h)

-- Where enough bytes arrive, the first ones are read.
pub read_exact_enough :
    (n : ℕ) (s : List ℕ) → n ≤ length s → read_exact n s ≡ some (take n s, drop n s)
unfolding read_exact
read_exact_enough n s h = ground arith
