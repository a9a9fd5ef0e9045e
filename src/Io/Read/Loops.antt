-- ===== src/Io/Read/Loops.antt =====
-- What the loop `read_exact` of core/src/io/buf_io.rs delivers, and when it ends.
use occams_rpc.Base.{
  ◌≢◌, ℕ, zero, suc, ◌+◌, ◌-◌, ◌≤◌, ◌<◌, ◌≡◌, refl, sym, ap, ◌∙◌, List, [], ◌∷◌, ◌++◌, arith,
  length, length-append, append_assoc, append-nil,
}
use occams_rpc.Base.Result.{Result, ok, err}
use occams_rpc.Io.{
  IoErr, interrupted, unexpected_eof, write_zero, other, out_of_fuel, Source, Reads,
}
use occams_rpc.Io.Read.{Got, filled, failed, bytes_of, after_exact, read_exact}

module _ {S : Type 0} (src : Source S) where
  open src use {read, content, Valid, reads}

  -- All n bytes, or fewer.
  abbrev pub Count : ℕ → ℕ → Got → Type 0
  Count k n (filled b) = k ≡ n
  Count k n (failed e b) = k < n

  Count-shift : (j m k n : ℕ) (g : Got) → m ≤ n → j ≡ m + k → Count k (n - m) g → Count j n g
  Count-shift j m k n (filled b) h e c = omega arith
  Count-shift j m k n (failed e b) h i c = omega arith

  -- The loop has taken these bytes off the reader and put them behind those that it had.
  pub record Exact (n : ℕ) (got : List ℕ) (s : S) (out : Got × S) : Type 0 where
    pub more : List ℕ
    pub bytes : bytes_of out.0 ≡ got ++ more
    pub taken : content s ≡ more ++ content out.1
    pub valid : Valid out.1
    pub count : Count (length more) n out.0

  stays :
      (n : ℕ) (got : List ℕ) (s : S) (e : IoErr) (s' : S)
      → content s' ≡ content s
      → Valid s'
      → 0 < n
      → Exact n got s (failed e got, s')
  stays n got s e s' c v h = record {
    more = [];
    bytes = sym (append-nil got);
    taken = sym c;
    valid = v;
    count = h;
  }

  continues :
      (n : ℕ) (got b : List ℕ) (s s' : S) {out : Got × S}
      → content s ≡ b ++ content s'
      → length b ≤ n
      → Exact (n - length b) (got ++ b) s' out
      → Exact n got s out
  continues n got b s s' {out} c h x = record {
    more = b ++ x.more;
    bytes = x.bytes ∙ append_assoc got b x.more;
    taken = c ∙ (ap (◌++◌ b) x.taken ∙ sym (append_assoc b x.more (content out.1)));
    valid = x.valid;
    count = Count-shift _ (length b) (length x.more) n out.0 h (length-append b x.more) x.count;
  }

  after_exact-Exact :
      (again : ℕ → List ℕ → S → Got × S) (n : ℕ) (got : List ℕ) (s : S) (r : Result IoErr (List ℕ))
      (s' : S)
      → 0 < n
      → ((m : ℕ) (g : List ℕ) (u : S) → Valid u → Exact m g u (again m g u))
      → Reads content Valid n s (r, s')
      → Exact n got s (after_exact again n got (r, s'))
  after_exact-Exact again n got s (ok []) s' h ih w =
      stays n got s unexpected_eof s' (sym w.1) w.2 h
  after_exact-Exact again n got s (ok (x ∷ b)) s' h ih w =
      continues n got (x ∷ b) s s' w.1 w.0 (ih _ _ s' w.2)
  after_exact-Exact again n got s (err interrupted) s' h ih w =
      let x = ih n got s' w.1 in
      record {
        more = x.more;
        bytes = x.bytes;
        taken = sym w.0 ∙ x.taken;
        valid = x.valid;
        count = x.count;
      }
  after_exact-Exact again n got s (err unexpected_eof) s' h ih w = stays n got s _ s' w.0 w.1 h
  after_exact-Exact again n got s (err write_zero) s' h ih w = stays n got s _ s' w.0 w.1 h
  after_exact-Exact again n got s (err other) s' h ih w = stays n got s _ s' w.0 w.1 h
  after_exact-Exact again n got s (err out_of_fuel) s' h ih w = stays n got s _ s' w.0 w.1 h

  read_exact-Exact :
      (fuel n : ℕ) (got : List ℕ) (s : S) → Valid s → Exact n got s (read_exact src fuel n got s)
  unfolding read_exact
  read_exact-Exact fuel zero got s v = record {
    more = [];
    bytes = sym (append-nil got);
    taken = refl;
    valid = v;
    count = refl;
  }
  read_exact-Exact zero (suc n) got s v = stays (suc n) got s out_of_fuel s refl v (omega arith)
  read_exact-Exact (suc fuel) (suc n) got s v =
      after_exact-Exact (read_exact src fuel) (suc n) got s (read (suc n) s).0 (read (suc n) s).1
        (omega arith) (read_exact-Exact fuel) (reads (suc n) s v)

  -- `read_exact` into a buffer of n bytes fills it with exactly the next n bytes of the reader, or
  -- fails after fewer than n of them; either way what it has taken is what the reader has lost.
  pub read_exact_lem :
      (fuel n : ℕ) (s : S)
      → Valid s
      → let (g, s') = read_exact src fuel n [] s in
        (content s ≡ bytes_of g ++ content s') × Count (length (bytes_of g)) n g × Valid s'
  read_exact_lem fuel n s v =
      let x = read_exact-Exact fuel n [] s v in (rw x.bytes x.taken, rw x.bytes x.count, x.valid)

  -- The loop ended by itself.
  abbrev pub Ran : Got → Type 0
  Ran (filled b) = Unit {0}
  Ran (failed e b) = e ≢ out_of_fuel

  -- A reader that is interrupted only so often: `patience` counts how often at most.
  abbrev pub Calm : (S → ℕ) → S → Result IoErr (List ℕ) × S → Type 0
  Calm patience s (ok b, s') = patience s' ≤ patience s
  Calm patience s (err interrupted, s') = patience s' < patience s
  Calm patience s (err e, s') = e ≢ out_of_fuel

  module _ (patience : S → ℕ) (calm : (n : ℕ) (s : S) → Calm patience s (read n s)) where
    after_exact-Ran :
        (again : ℕ → List ℕ → S → Got × S) (fuel n : ℕ) (got : List ℕ) (s : S)
        (r : Result IoErr (List ℕ)) (s' : S)
        → suc n + patience s ≤ suc fuel
        → ((m : ℕ) (g : List ℕ) (u : S) → m + patience u ≤ fuel → Ran (again m g u).0)
        → Calm patience s (r, s')
        → Ran (after_exact again (suc n) got (r, s')).0
    after_exact-Ran again fuel n got s (ok []) s' h ih c = λ e. cc
    after_exact-Ran again fuel n got s (ok (x ∷ b)) s' h ih c = ih _ _ s' (omega arith)
    after_exact-Ran again fuel n got s (err interrupted) s' h ih c = ih _ _ s' (omega arith)
    after_exact-Ran again fuel n got s (err unexpected_eof) s' h ih c = c
    after_exact-Ran again fuel n got s (err write_zero) s' h ih c = c
    after_exact-Ran again fuel n got s (err other) s' h ih c = c
    after_exact-Ran again fuel n got s (err out_of_fuel) s' h ih c = c

    -- As many rounds as bytes are wanted and interruptions can come are enough for `read_exact` to
    -- end.
    pub read_exact_total :
        (fuel n : ℕ) (got : List ℕ) (s : S)
        → n + patience s ≤ fuel
        → Ran (read_exact src fuel n got s).0
    unfolding read_exact
    read_exact_total fuel zero got s h = tt
    read_exact_total zero (suc n) got s h = absurd (omega arith)
    read_exact_total (suc fuel) (suc n) got s h =
        after_exact-Ran (read_exact src fuel) fuel n got s (read (suc n) s).0 (read (suc n) s).1 h
          (read_exact_total fuel) (calm (suc n) s)
