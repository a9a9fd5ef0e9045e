-- ===== src/Io/Read/Front.antt =====
-- `AsyncBufRead` (core/src/io/buf_io.rs) in front of a reader is a reader of the same bytes.
use occams_rpc.Base.{
  take-add, ℕ, ◌+◌, ◌-◌, ◌≤◌, ◌<◌, ◌≡◌, refl, sym, ap, ◌∙◌, List, [], ◌++◌, arith, length,
  length-append, length-take, append_assoc, ltb, leb, min, Bool-cases, inl, inr, slice, take, drop,
  slice-add, take-append_length,
}
use occams_rpc.Base.Result.{Result, ok, err}
use occams_rpc.Io.{IoErr, Source, Reads}
use occams_rpc.Io.Read.{
  AsyncBufRead, Buffered, new_read, read_buffered, direct, refilled, content_buffered,
}

-- The unread part lies inside the memory.
pub record IsFront (f : AsyncBufRead) : Type 0 where
  pub ordered : f.pos ≤ f.cap
  pub inside : f.cap ≤ length f.mem

new_read-IsFront : (capacity : ℕ) → IsFront (new_read capacity)
unfolding new_read
new_read-IsFront capacity = omega arith

-- The bytes from p on, cut at k.
cut :
    (p c k : ℕ) (mem : List ℕ)
    → k ≤ c - p
    → slice p (c - p) mem ≡ slice p k mem ++ slice (p + k) (c - (p + k)) mem
cut p c k mem h =
    let e : c - p ≡ k + (c - (p + k)) = omega arith in rw e (slice-add p k (c - (p + k)) mem)

nothing : (p c : ℕ) (mem : List ℕ) → c ≤ p → slice p (c - p) mem ≡ []
nothing p c mem h = let e : c - p ≡ 0 = omega arith in rw e

-- What was read into the memory is a copied part and an unread one.
recut :
    (b r : List ℕ) (k : ℕ) → k ≤ length b → b ≡ take k (b ++ r) ++ slice k (length b - k) (b ++ r)
recut b r k h =
    sym (take-append_length (length b) b r refl)
    ∙ (ap (λ j. take j (b ++ r)) {x = length b} {y = k + (length b - k)} (omega arith)
        ∙ take-add k (length b - k) (b ++ r))

module _ {S : Type 0} (src : Source S) where
  open src use {read, content, Valid, reads}

  abbrev pub ValidBuffered : Buffered S → Type 0
  ValidBuffered s = IsFront s.front × Valid s.inner

  abbrev Outcome : ℕ → Buffered S → Result IoErr (List ℕ) × Buffered S → Type 0
  Outcome n s out = Reads (content_buffered src) ValidBuffered n s out

  from_front :
      (n k : ℕ) (f : AsyncBufRead) (s : S)
      → ValidBuffered (record { front = f; inner = s })
      → k ≤ n
      → k ≤ f.cap - f.pos
      → f.pos < f.cap
      → Outcome n
          (record { front = f; inner = s })
          (ok (slice f.pos k f.mem), record { front = record f { pos = f.pos + k }; inner = s })
  from_front n k f s v kn kc h = (
    omega (arith, length-take k (drop f.pos f.mem)),
    ap (λ x. x ++ content s) (cut f.pos f.cap k f.mem kc)
        ∙ append_assoc (slice f.pos k f.mem) (slice (f.pos + k) (f.cap - (f.pos + k)) f.mem)
            (content s),
    (omega arith, v.1),
  )

  from_direct :
      (n : ℕ) (f : AsyncBufRead) (s : S) (r : Result IoErr (List ℕ)) (s' : S)
      → IsFront f
      → f.cap ≤ f.pos
      → Reads content Valid n s (r, s')
      → Outcome n (record { front = f; inner = s }) (direct src f (r, s'))
  from_direct n f s (ok b) s' v h w = (w.0, rw (nothing f.pos f.cap f.mem h) w.1, (v, w.2))
  from_direct n f s (err e) s' v h w = (rw (nothing f.pos f.cap f.mem h) w.0, (v, w.1))

  from_refilled :
      (n : ℕ) (f : AsyncBufRead) (s : S) (r : Result IoErr (List ℕ)) (s' : S)
      → IsFront f
      → f.cap ≤ f.pos
      → Reads content Valid (length f.mem) s (r, s')
      → Outcome n (record { front = f; inner = s }) (refilled src n f (r, s'))
  from_refilled n f s (ok b) s' v h w =
      let k = min n (length b) in
      let mem = b ++ drop (length b) f.mem in
      (
        omega (arith, length-take k mem),
        rw (nothing f.pos f.cap f.mem h) (
            w.1
            ∙ (ap (λ x. x ++ content s') (recut b (drop (length b) f.mem) k (omega arith))
                ∙ append_assoc (take k mem) (slice k (length b - k) mem) (content s'))),
        (omega (arith, length-append b (drop (length b) f.mem)), w.2),
      )
  from_refilled n f s (err e) s' v h w = (rw (nothing f.pos f.cap f.mem h) w.0, (v, w.1))

  -- A read through the buffer takes the first bytes of what is still to come, the rest of the buffer
  -- before what the reader holds, and at most as many as asked for; a failed read takes none; and the
  -- buffer stays in order.
  pub read_buffered_lem :
      (n : ℕ) (s : Buffered S)
      → ValidBuffered s
      → Reads (content_buffered src) ValidBuffered n s (read_buffered src n s)
  unfolding read_buffered
  read_buffered_lem n s v = elim (Bool-cases (ltb s.front.pos s.front.cap)) [
    | inl here ↦ rw here (
        from_front n (min n (s.front.cap - s.front.pos)) s.front s.inner v (omega arith)
          (omega arith) (ground arith))
    | inr empty ↦ rw empty (elim (Bool-cases (leb (length s.front.mem) n)) [
      | inl large ↦ rw large (
          from_direct n s.front s.inner (read n s.inner).0 (read n s.inner).1 v.0 (ground arith)
            (reads n s.inner v.1))
      | inr small ↦ rw small (
          from_refilled n s.front s.inner (read (length s.front.mem) s.inner).0
            (read (length s.front.mem) s.inner).1 v.0 (ground arith)
            (reads (length s.front.mem) s.inner v.1))
    ])
  ]

  -- So the buffered reader is a reader again.
  unfoldable pub buffered_source : Source (Buffered S)
  buffered_source = record {
    read = read_buffered src;
    content = content_buffered src;
    Valid = ValidBuffered;
    reads = read_buffered_lem;
  }
