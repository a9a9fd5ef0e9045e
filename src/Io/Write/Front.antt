-- ===== src/Io/Write/Front.antt =====
-- `AsyncBufWrite` (core/src/io/buf_io.rs) in front of a writer is a writer of the same bytes.
use occams_rpc.Base.{
  ℕ, ◌+◌, ◌-◌, ◌≤◌, ◌<◌, ◌≡◌, ◌≢◌, refl, sym, ap, ◌∙◌, List, ◌++◌, arith, length, length-append,
  length-take, length-drop, append_assoc, append-nil, take, drop, take-append_length, take-all, ltb,
  leb, Bool-cases, inl, inr,
}
use occams_rpc.Base.Result.{Result, ok, err}
use occams_rpc.Io.{
  IoErr, interrupted, unexpected_eof, write_zero, other, out_of_fuel, Sink, Accepts,
}
use occams_rpc.Io.Write.{
  Done, AsyncBufWrite, Buffered, flush, flushed, direct, write_direct, copied, write_buffered,
  content_buffered,
}
use occams_rpc.Io.Write.Loops.{Wrote, Final, write_all_lem, write_all-Final}

-- What waits lies inside the memory.
pub record IsFront (f : AsyncBufWrite) : Type 0 where
  pub inside : f.pos ≤ length f.mem

module _ {S : Type 0} (snk : Sink S) (fuel : ℕ) where
  open snk use {write, content, Valid, writes}

  abbrev pub ValidBuffered : Buffered S → Type 0
  ValidBuffered w = IsFront w.front × Valid w.inner

  -- Nothing is lost and nothing waits any more; or the flush failed for good.
  abbrev pub Flushed : Buffered S → Done × Buffered S → Type 0
  Flushed w (ok u, w') =
      (content w'.inner ≡ content_buffered snk fuel w)
      × (w'.front.pos ≡ 0)
      × (w'.front.mem ≡ w.front.mem)
      × ValidBuffered w'
  Flushed w (err e, w') = (e ≢ interrupted) × ValidBuffered w'

  flushed-Flushed :
      (f : AsyncBufWrite) (s : S) (r : Done) (s' : S)
      → IsFront f
      → Final snk r
      → Wrote snk (take f.pos f.mem) s (r, s')
      → Flushed (record { front = f; inner = s }) (flushed snk fuel f (r, s'))
  flushed-Flushed f s (ok u) s' v n w = (w.0, refl, refl, (omega arith, w.1))
  flushed-Flushed f s (err e) s' v n w = (n, (v, w))

  -- A flush that succeeds has handed everything that waited to the writer, and leaves the buffer
  -- empty.
  pub flush_lem : (w : Buffered S) → ValidBuffered w → Flushed w (flush snk fuel w)
  unfolding flush
  flush_lem w v = elim (Bool-cases (ltb 0 w.front.pos)) [
    | inl some_wait ↦ rw some_wait (
        flushed-Flushed w.front w.inner _ _ v.0
          (write_all-Final snk fuel (take w.front.pos w.front.mem) w.inner)
          (write_all_lem snk fuel (take w.front.pos w.front.mem) w.inner v.1))
    | inr none_waits ↦ rw none_waits (
        let z : w.front.pos ≡ 0 = ground arith in
        (rw z (sym (append-nil (content w.inner))), z, refl, v))
  ]

  abbrev Outcome : List ℕ → Buffered S → Result IoErr ℕ × Buffered S → Type 0
  Outcome b w out = Accepts (content_buffered snk fuel) ValidBuffered b w out

  -- An error that is no interruption.
  failed :
      (b : List ℕ) (w w' : Buffered S) (e : IoErr)
      → e ≢ interrupted
      → ValidBuffered w'
      → Outcome b w (err e, w')
  failed b w w' interrupted n v = absurd (n refl)
  failed b w w' unexpected_eof n v = v
  failed b w w' write_zero n v = v
  failed b w w' other n v = v
  failed b w w' out_of_fuel n v = v

  direct-Outcome :
      (b : List ℕ) (w : Buffered S) (f : AsyncBufWrite) (s : S) (r : Result IoErr ℕ) (s' : S)
      → content s ≡ content_buffered snk fuel w
      → f.pos ≡ 0
      → IsFront f
      → Accepts content Valid b s (r, s')
      → Outcome b w (direct snk fuel f (r, s'))
  direct-Outcome b w f s (ok n) s' c z v a =
      (a.0, rw z (append-nil (content s') ∙ (a.1 ∙ ap (λ x. x ++ take n b) c)), (v, a.2))
  direct-Outcome b w f s (err interrupted) s' c z v a =
      (rw z (append-nil (content s') ∙ (a.0 ∙ c)), (v, a.1))
  direct-Outcome b w f s (err unexpected_eof) s' c z v a = (v, a)
  direct-Outcome b w f s (err write_zero) s' c z v a = (v, a)
  direct-Outcome b w f s (err other) s' c z v a = (v, a)
  direct-Outcome b w f s (err out_of_fuel) s' c z v a = (v, a)

  write_direct-Outcome :
      (b : List ℕ) (w : Buffered S) (d : Done) (w' : Buffered S)
      → Flushed w (d, w')
      → Outcome b w (write_direct snk fuel b (d, w'))
  write_direct-Outcome b w (ok u) w' x =
      direct-Outcome b w w'.front w'.inner _ _ x.0 x.1 x.3.0 (writes b w'.inner x.3.1)
  write_direct-Outcome b w (err e) w' x = failed b w w' e x.0 x.1

  -- Bytes copied behind the first ones lie behind them.
  copied_bytes :
      (b mem : List ℕ) (pos : ℕ)
      → pos ≤ length mem
      → take (pos + length b) (take pos mem ++ (b ++ drop (pos + length b) mem)) ≡ take pos mem ++ b
  copied_bytes b mem pos h =
      let size : length (take pos mem ++ b) ≡ pos + length b =
        ground (arith, length-append (take pos mem) b, length-take pos mem) in
      ap (λ xs. take (pos + length b) xs)
        (sym (append_assoc (take pos mem) b (drop (pos + length b) mem)))
      ∙ (ap (λ n. take n ((take pos mem ++ b) ++ drop (pos + length b) mem)) (sym size)
          ∙ take-append_length (length (take pos mem ++ b)) (take pos mem ++ b)
              (drop (pos + length b) mem) refl)

  copied_size :
      (b mem : List ℕ) (pos : ℕ)
      → pos + length b ≤ length mem
      → pos + length b ≤ length (take pos mem ++ (b ++ drop (pos + length b) mem))
  copied_size b mem pos h = ground (
    arith,
    length-append (take pos mem) (b ++ drop (pos + length b) mem),
    length-append b (drop (pos + length b) mem),
    length-take pos mem,
    length-drop (pos + length b) mem,
  )

  -- The buffer that the bytes are copied into holds what was there, and has room for them.
  copied-Outcome :
      (b : List ℕ) (w w' : Buffered S)
      → content_buffered snk fuel w' ≡ content_buffered snk fuel w
      → w'.front.pos + length b ≤ length (w'.front.mem)
      → ValidBuffered w'
      → Outcome b w (copied snk fuel b (ok tt, w'))
  copied-Outcome b w w' c h v = (
    omega arith,
    ap (λ xs. content w'.inner ++ xs) (copied_bytes b w'.front.mem w'.front.pos v.0.inside)
        ∙ (sym (append_assoc (content w'.inner) (take w'.front.pos w'.front.mem) b)
            ∙ (ap (λ xs. xs ++ b) c
                ∙ ap (λ xs. content_buffered snk fuel w ++ xs)
                    (sym (take-all (length b) b (omega arith))))),
    (record { inside = copied_size b w'.front.mem w'.front.pos h }, v.1),
  )

  copied_flushed-Outcome :
      (b : List ℕ) (w : Buffered S) (d : Done) (w' : Buffered S)
      → length b < length w.front.mem
      → Flushed w (d, w')
      → Outcome b w (copied snk fuel b (d, w'))
  copied_flushed-Outcome b w (ok u) w' h x =
      copied-Outcome b w w' (rw x.1 (append-nil _ ∙ x.0)) (rw (x.1, x.2) (omega arith)) x.3
  copied_flushed-Outcome b w (err e) w' h x = failed b w w' e x.0 x.1

  -- A write through the buffer that succeeds adds the first bytes of the caller's buffer, as many as
  -- it says, behind all that was accepted before, what the writer has counted before what waits; one
  -- that is interrupted adds none; and the buffer stays in order.
  pub write_buffered_lem :
      (b : List ℕ) (w : Buffered S)
      → ValidBuffered w
      → Accepts (content_buffered snk fuel) ValidBuffered b w (write_buffered snk fuel b w)
  unfolding write_buffered
  write_buffered_lem b w v = elim (Bool-cases (leb (length w.front.mem) (length b))) [
    | inl large ↦
        rw large
          (write_direct-Outcome b w (flush snk fuel w).0 (flush snk fuel w).1 (flush_lem w v))
    | inr small ↦ rw small (elim (Bool-cases (ltb (length w.front.mem - w.front.pos) (length b))) [
      | inl full ↦ rw full (
          copied_flushed-Outcome b w (flush snk fuel w).0 (flush snk fuel w).1 (ground arith)
            (flush_lem w v))
      | inr room ↦ rw room (copied-Outcome b w w refl (ground (arith, v.0)) v)
    ])
  ]

  -- So the buffered writer is a writer again.
  unfoldable pub buffered_sink : Sink (Buffered S)
  buffered_sink = record {
    write = write_buffered snk fuel;
    content = content_buffered snk fuel;
    Valid = ValidBuffered;
    writes = write_buffered_lem;
  }
