-- ===== src/Io/Read/AtLeast.antt =====
-- What the loop `read_at_least` of core/src/io/buf_io.rs delivers.
use occams_rpc.Base.{
  ℕ, zero, suc, ◌-◌, ◌≤◌, ◌≡◌, refl, sym, ap, ◌∙◌, List, [], ◌∷◌, ◌++◌, ◌&&◌, arith, length,
  length-append, append_assoc, append-nil, ltb, min, Bool-cases, inl, inr,
}
use occams_rpc.Base.Result.{Result, ok, err}
use occams_rpc.Io.{
  IoErr, interrupted, unexpected_eof, write_zero, other, out_of_fuel, Source, Reads,
}
use occams_rpc.Io.Read.{Got, filled, failed, bytes_of, after_at_least, read_at_least}

module _ {S : Type 0} (src : Source S) where
  open src use {read, content, Valid, reads}

  -- At least `min_len` bytes, or as many as the buffer holds.
  abbrev pub Enough : ℕ → ℕ → Got → Type 0
  Enough min_len len (filled b) = (min min_len len ≤ length b) × (length b ≤ len)
  Enough min_len len (failed e b) = length b ≤ len

  pub record AtLeast (min_len len : ℕ) (got : List ℕ) (s : S) (out : Got × S) : Type 0 where
    pub more : List ℕ
    pub bytes : bytes_of out.0 ≡ got ++ more
    pub taken : content s ≡ more ++ content out.1
    pub valid : Valid out.1
    pub enough : Enough min_len len out.0

  module _ (min_len len : ℕ) where
    stops :
        (got : List ℕ) (s s' : S) (g : Got)
        → bytes_of g ≡ got
        → content s' ≡ content s
        → Valid s'
        → Enough min_len len g
        → AtLeast min_len len got s (g, s')
    stops got s s' g b c v e = record {
      more = [];
      bytes = b ∙ sym (append-nil got);
      taken = sym c;
      valid = v;
      enough = e;
    }

    after_at_least-AtLeast :
        (again : List ℕ → S → Got × S) (got : List ℕ) (s : S) (r : Result IoErr (List ℕ)) (s' : S)
        → length got ≤ len
        → ((g : List ℕ) (u : S) → length g ≤ len → Valid u → AtLeast min_len len g u (again g u))
        → Reads content Valid (len - length got) s (r, s')
        → AtLeast min_len len got s (after_at_least again got (r, s'))
    after_at_least-AtLeast again got s (ok []) s' h ih w =
        stops got s s' (failed unexpected_eof got) refl (sym w.1) w.2 h
    after_at_least-AtLeast again got s (ok (x ∷ b)) s' h ih w =
        let y = ih (got ++ (x ∷ b)) s' (omega (arith, length-append got (x ∷ b))) w.2 in
        record {
          more = (x ∷ b) ++ y.more;
          bytes = y.bytes ∙ append_assoc got (x ∷ b) y.more;
          taken = w.1 ∙ (ap (◌++◌ (x ∷ b)) y.taken ∙ sym (append_assoc (x ∷ b) y.more _));
          valid = y.valid;
          enough = y.enough;
        }
    after_at_least-AtLeast again got s (err interrupted) s' h ih w =
        let y = ih got s' h w.1 in
        record {
          more = y.more;
          bytes = y.bytes;
          taken = sym w.0 ∙ y.taken;
          valid = y.valid;
          enough = y.enough;
        }
    after_at_least-AtLeast again got s (err unexpected_eof) s' h ih w =
        stops got s s' (failed unexpected_eof got) refl w.0 w.1 h
    after_at_least-AtLeast again got s (err write_zero) s' h ih w =
        stops got s s' (failed write_zero got) refl w.0 w.1 h
    after_at_least-AtLeast again got s (err other) s' h ih w =
        stops got s s' (failed other got) refl w.0 w.1 h
    after_at_least-AtLeast again got s (err out_of_fuel) s' h ih w =
        stops got s s' (failed out_of_fuel got) refl w.0 w.1 h

    read_at_least-AtLeast :
        (fuel : ℕ) (got : List ℕ) (s : S)
        → length got ≤ len
        → Valid s
        → AtLeast min_len len got s (read_at_least src fuel min_len len got s)
    unfolding read_at_least
    read_at_least-AtLeast zero got s h v =
        elim (Bool-cases (ltb (length got) min_len && ltb (length got) len)) [
          | inl more ↦ rw more (stops got s s (failed out_of_fuel got) refl refl v h)
          | inr done ↦ rw done (stops got s s (filled got) refl refl v (ground arith))
        ]
    read_at_least-AtLeast (suc fuel) got s h v =
        elim (Bool-cases (ltb (length got) min_len && ltb (length got) len)) [
          | inl more ↦ rw more (
              after_at_least-AtLeast (read_at_least src fuel min_len len) got s
                (read (len - length got) s).0 (read (len - length got) s).1 h
                (read_at_least-AtLeast fuel) (reads (len - length got) s v))
          | inr done ↦ rw done (stops got s s (filled got) refl refl v (ground arith))
        ]

    -- `read_at_least` into a buffer of `len` bytes takes the next bytes of the reader, never more
    -- than the buffer holds. When it succeeds there are at least `min_len` of them, or `len` if the
    -- buffer is smaller than that.
    pub read_at_least_lem :
        (fuel : ℕ) (s : S)
        → Valid s
        → let (g, s') = read_at_least src fuel min_len len [] s in
          (content s ≡ bytes_of g ++ content s') × Enough min_len len g × Valid s'
    read_at_least_lem fuel s v =
        let x = read_at_least-AtLeast fuel [] s (omega arith) v in
        (rw x.bytes x.taken, x.enough, x.valid)
