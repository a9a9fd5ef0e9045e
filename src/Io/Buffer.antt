-- ===== src/Io/Buffer.antt =====
-- core/src/io/buffer.rs: the buffers that a blob is read into, `AllocateBuf` for each of the four types.
-- Bytes that `set_len` uncovers are what the memory held, here the argument `fill`; a length is a
-- blob length that was checked not to be negative.
use occams_rpc.Base.{
  ℕ, ◌+◌, ◌-◌, ◌≤◌, ◌<◌, ◌≡◌, Bool, true, false, Option, none, some, ltb, ◌==◌, if◌then◌else◌, not,
  arith,
}

-- A buffer by its length and capacity: `Vec<u8>`, or `io_buffer::Buffer`.
pub record Buffer : Type 0 where
  pub len : ℕ
  pub capacity : ℕ

-- `Vec::reserve(additional)`: the capacity is at least the length and the additional bytes afterwards;
-- `grown` stands for the allocator's choice of a larger one.
abbrev pub vec_reserve : (ℕ → ℕ) → ℕ → Buffer → Buffer
vec_reserve grown additional b =
    if ltb b.capacity (b.len + additional)
    then record b { capacity = b.len + additional + grown (b.len + additional) }
    else b

-- `reserve` of `Vec<u8>`, up to the slice it gives
unfoldable pub reserve_vec : (ℕ → ℕ) → ℕ → Buffer → Buffer
reserve_vec grown blob_len b =
    if b.len == blob_len
    then b
    else if ltb b.capacity blob_len
    then record (vec_reserve grown (blob_len - b.capacity) b) { len = blob_len }
    else record b { len = blob_len }

-- `reserve` of `Option<Vec<u8>>`
unfoldable pub reserve_opt_vec : (ℕ → ℕ) → ℕ → Option Buffer → Buffer
reserve_opt_vec grown blob_len none = record { len = blob_len; capacity = blob_len }
reserve_opt_vec grown blob_len (some b) = reserve_vec grown blob_len b

-- `reserve` of `io_buffer::Buffer`: the buffer after it, and whether there is a slice
unfoldable pub reserve_buffer : ℕ → Buffer → Buffer × Bool
reserve_buffer blob_len b =
    if b.len == blob_len
    then (b, true)
    else if ltb b.capacity blob_len
    then (b, false)
    else (record b { len = blob_len }, true)

-- What reserving in an optional buffer leaves, and whether there is a slice.
abbrev pub kept : Buffer × Bool → Option Buffer × Bool
kept (b, given) = (some b, given)

-- `reserve` of `Option<io_buffer::Buffer>`, where `alloc` is `Buffer::alloc`
unfoldable pub reserve_opt_buffer : (ℕ → Option Buffer) → ℕ → Option Buffer → Option Buffer × Bool
reserve_opt_buffer alloc blob_len (some b) = kept (reserve_buffer blob_len b)
reserve_opt_buffer alloc blob_len none = elim (alloc blob_len) [
  | some v ↦ (some v, true)
  | none ↦ (none, false)
]

-- The length lies inside the allocation.
abbrev pub IsInside : Buffer → Type 0
IsInside b = b.len ≤ b.capacity

-- A fixed buffer gives a slice of exactly the blob's length, inside its allocation and without growing
-- it, if the blob fits or the buffer has that length already; otherwise it gives none and is left as
-- it was. The condition: the buffer is inside its allocation before.
pub reserve_buffer_lem :
    (blob_len : ℕ) (b : Buffer)
    → IsInside b
    → let (b', given) = reserve_buffer blob_len b in
      IsInside b'
      × (b'.capacity ≡ b.capacity)
      × (given ≡ not (ltb b.capacity blob_len))
      × (b'.len ≡ (if given then blob_len else b.len))
unfolding reserve_buffer
reserve_buffer_lem blob_len b h = ground (arith, h)

-- A growing buffer that is full has the blob's length afterwards and stays inside its allocation.
-- Nothing is said of a buffer that is not full: it is asked for the difference to its capacity, but
-- `Vec::reserve` counts from its length.
pub reserve_vec-full :
    (grown : ℕ → ℕ) (blob_len : ℕ) (b : Buffer)
    → b.len ≡ b.capacity
    → ((reserve_vec grown blob_len b).len ≡ blob_len) × IsInside (reserve_vec grown blob_len b)
unfolding reserve_vec
reserve_vec-full grown blob_len b h = ground (arith, h)

-- A growing buffer that has room for as many bytes behind its length as the blob needs behind its
-- capacity is not grown at all, though the blob is longer than its capacity: its length is set past
-- its allocation.
pub reserve_vec-outside :
    (grown : ℕ → ℕ) (blob_len : ℕ) (b : Buffer)
    → b.capacity < blob_len
    → b.len + (blob_len - b.capacity) ≤ b.capacity
    → let b' = reserve_vec grown blob_len b in (b'.capacity ≡ b.capacity) × (b'.capacity < b'.len)
unfolding reserve_vec
reserve_vec-outside grown blob_len b h r = ground (arith, h, r)
