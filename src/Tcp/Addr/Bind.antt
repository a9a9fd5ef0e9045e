-- ===== src/Tcp/Addr/Bind.antt =====
-- The binding of a Unix socket (`UnifyListener::bind` of transport/tcp/src/net.rs).
use occams_rpc.Base.{
  ℕ, suc, ◌≡◌, ◌≢◌, refl, sym, ap, ◌∙◌, Bool, true, false, not, ◌&&◌, Bool-cases, inl, inr, Option,
  none, some, List, [], ◌∷◌, arith, length, length-append,
}
use occams_rpc.Base.Result.{ok, err}
use occams_rpc.Error.Text.{bytes_eq, bytes_eq_refl, bytes_eq_sound}
use occams_rpc.Io.{other}
use occams_rpc.Tcp.Addr.{
  Entry, file, link, Files, entry_at, exists, is_some, without, Permits, dup_of, Bound, remove_file,
  remove_if, mode_set, linked, socket_bound, bind_dup, bind_path,
}

bytes_eq-ne : (p q : List ℕ) → p ≢ q → bytes_eq p q ≡ false
bytes_eq-ne p q n = elim (Bool-cases (bytes_eq p q)) [
  | inl e ↦ absurd (n (bytes_eq_sound p q e))
  | inr e ↦ e
]

dup_of-ne : (p : List ℕ) → dup_of p ≢ p
dup_of-ne p e =
    let n = ap length e in absurd (omega (arith, n, length-append p (95 ∷ 100 ∷ 117 ∷ 112 ∷ [])))

entry_at-without : (p q : List ℕ) (fs : Files) → q ≢ p → entry_at q (without p fs) ≡ entry_at q fs
entry_at-without p q [] n = refl
entry_at-without p q ((r, i) ∷ fs) n = elim (Bool-cases (bytes_eq r p)) [
  | inl e ↦
      rw (e, bytes_eq-ne r q (λ x. n (sym x ∙ bytes_eq_sound r p e))) (entry_at-without p q fs n)
  | inr e ↦ rw e (rw (entry_at-without p q fs n) refl)
]

without-none : (p : List ℕ) (fs : Files) → entry_at p (without p fs) ≡ none
without-none p [] = refl
without-none p ((r, i) ∷ fs) = elim (Bool-cases (bytes_eq r p)) [
  | inl e ↦ rw e (without-none p fs)
  | inr e ↦ rw e (rw e (without-none p fs))
]

module _ (permits : Permits) (p : List ℕ) (l : ℕ) where
  -- Only the two names of the socket change; where the binding succeeds both are the new socket.
  abbrev pub Binds : Files → Bound → Type 0
  Binds fs out =
      ((q : List ℕ) → q ≢ p → q ≢ dup_of p → entry_at q out.1 ≡ entry_at q fs)
      × ((n : ℕ)
          → out.0 ≡ ok n
          → (n ≡ l)
            × (entry_at p out.1 ≡ some (file l))
            × (entry_at (dup_of p) out.1 ≡ some (file l)))

  refused-Binds : (fs : Files) → Binds fs (err other, fs)
  refused-Binds fs = (λ q n m. refl, λ n e. absurd (ground arith))

  -- A name of the socket that is removed before.
  remove_if-Binds :
      (b : Bool) (r : List ℕ) (next : Files → Bound) (fs : Files)
      → ((q : List ℕ) → q ≢ p → q ≢ dup_of p → q ≢ r)
      → ((gs : Files) → Binds gs (next gs))
      → Binds fs (remove_if permits b r next fs)
  remove_if-Binds false r next fs own h = h fs
  remove_if-Binds true r next fs own h = removed (permits.removes r)
    where
      removed : (c : Bool) → Binds fs (remove_file permits c r next fs)
      removed true =
          let (k, m) = h (without r fs) in
          (λ q n d. k q n d ∙ entry_at-without r q fs (own q n d), m)
      removed false = refused-Binds fs

  added : (q r : List ℕ) (i : Entry) (fs : Files) → q ≢ r → entry_at q ((r, i) ∷ fs) ≡ entry_at q fs
  added q r i fs n = rw (bytes_eq-ne r q (λ e. n (sym e))) refl

  mode_set-Binds :
      (b : Bool) (fs : Files)
      → Binds fs (mode_set permits b l ((p, file l) ∷ (dup_of p, file l) ∷ fs))
  mode_set-Binds b fs = (kept b, bound b)
    where
      kept :
          (c : Bool) (q : List ℕ)
          → q ≢ p
          → q ≢ dup_of p
          → entry_at q (mode_set permits c l ((p, file l) ∷ (dup_of p, file l) ∷ fs)).1
            ≡ entry_at q fs
      kept true q n d =
          added q p (file l) ((dup_of p, file l) ∷ fs) n ∙ added q (dup_of p) (file l) fs d
      kept false q n d =
          added q p (file l) ((dup_of p, file l) ∷ fs) n ∙ added q (dup_of p) (file l) fs d

      bound :
          (c : Bool) (n : ℕ)
          → (mode_set permits c l ((p, file l) ∷ (dup_of p, file l) ∷ fs)).0 ≡ ok n
          → (n ≡ l)
            × (entry_at p (mode_set permits c l ((p, file l) ∷ (dup_of p, file l) ∷ fs)).1
                ≡ some (file l))
            × (entry_at (dup_of p) (mode_set permits c l ((p, file l) ∷ (dup_of p, file l) ∷ fs)).1
                ≡ some (file l))
      bound true n e = (
        ground arith,
        rw (bytes_eq_refl p) refl,
        added (dup_of p) p (file l) ((dup_of p, file l) ∷ fs) (dup_of-ne p)
            ∙ rw (bytes_eq_refl (dup_of p)) refl,
      )
      bound false n e = absurd (ground arith)

  linked-Binds : (b : Bool) (fs : Files) → Binds fs (linked permits b p l ((dup_of p, file l) ∷ fs))
  linked-Binds true fs = mode_set-Binds permits.sets_mode fs
  linked-Binds false fs = (λ q n d. added q (dup_of p) (file l) fs d, λ n e. absurd (ground arith))

  socket_bound-Binds : (b : Bool) (fs : Files) → Binds fs (socket_bound permits b p l fs)
  socket_bound-Binds true fs =
      linked-Binds (permits.links && not (is_some (entry_at p ((dup_of p, file l) ∷ fs)))) fs
  socket_bound-Binds false fs = refused-Binds fs

  -- Whatever the file system permits, binding a socket to a path changes at most the two names of the
  -- socket, and if it succeeds, the path and its "_dup" are both the new socket.
  pub bind_path-Binds : (fs : Files) → Binds fs (bind_path permits p l fs)
  bind_path-Binds fs =
      remove_if-Binds (exists (suc permits.max_links) fs p) p
        (λ fs₁.
          remove_if permits (exists (suc permits.max_links) fs₁ (dup_of p)) (dup_of p)
            (bind_dup permits p l) fs₁)
        fs (λ q n d. n)
        (λ fs₁.
          remove_if-Binds (exists (suc permits.max_links) fs₁ (dup_of p)) (dup_of p)
            (bind_dup permits p l) fs₁ (λ q n d. d)
            (λ gs. socket_bound-Binds (permits.binds && not (is_some (entry_at (dup_of p) gs))) gs))

  -- The two names are free behind the removals.
  is_some-none : (o : Option Entry) → is_some o ≡ false → o ≡ none
  is_some-none none e = refl
  is_some-none (some i) e = absurd (ground arith)

  module _ (removes_path : permits.removes p ≡ true)
      (removes_dup : permits.removes (dup_of p) ≡ true) (binds : permits.binds ≡ true)
      (links : permits.links ≡ true) (sets_mode : permits.sets_mode ≡ true) where
    bind_dup_free :
        (fs : Files)
        → entry_at p fs ≡ none
        → entry_at (dup_of p) fs ≡ none
        → (bind_dup permits p l fs).0 ≡ ok l
    bind_dup_free fs e d =
        rw
          (binds, d, links, added p (dup_of p) (file l) fs (λ x. dup_of-ne p (sym x)), e, sets_mode)
          refl

    remove_dup_lem :
        (b : Bool) (fs : Files)
        → is_some (entry_at (dup_of p) fs) ≡ b
        → entry_at p fs ≡ none
        → (remove_if permits b (dup_of p) (bind_dup permits p l) fs).0 ≡ ok l
    remove_dup_lem true fs b e = rw removes_dup (
        bind_dup_free (without (dup_of p) fs)
          (entry_at-without (dup_of p) p fs (λ x. dup_of-ne p (sym x)) ∙ e)
          (without-none (dup_of p) fs))
    remove_dup_lem false fs b e = bind_dup_free fs e (is_some-none (entry_at (dup_of p) fs) b)

    -- A name that is no link exists if it is taken.
    exists_taken :
        (q : List ℕ) (fs : Files) (o : Option Entry)
        → entry_at q fs ≡ o
        → ((r : List ℕ) → o ≢ some (link r))
        → exists (suc permits.max_links) fs q ≡ is_some (entry_at q fs)
    exists_taken q fs none e n = rw e refl
    exists_taken q fs (some (file i)) e n = rw e refl
    exists_taken q fs (some (link r)) e n = absurd (n r refl)

    remove_then_lem :
        (fs : Files)
        → entry_at p fs ≡ none
        → ((r : List ℕ) → entry_at (dup_of p) fs ≢ some (link r))
        → (remove_if permits
            (exists (suc permits.max_links) fs (dup_of p))
            (dup_of p)
            (bind_dup permits p l)
            fs).0
          ≡ ok l
    remove_then_lem fs e n =
        ap (λ b. (remove_if permits b (dup_of p) (bind_dup permits p l) fs).0)
          (exists_taken (dup_of p) fs (entry_at (dup_of p) fs) refl n)
        ∙ remove_dup_lem (is_some (entry_at (dup_of p) fs)) fs refl e

    remove_path_lem :
        (b : Bool) (fs : Files)
        → is_some (entry_at p fs) ≡ b
        → ((r : List ℕ) → entry_at (dup_of p) fs ≢ some (link r))
        → (remove_if permits b p
            (λ fs₁.
              remove_if permits
                (exists (suc permits.max_links) fs₁ (dup_of p))
                (dup_of p)
                (bind_dup permits p l)
                fs₁)
            fs).0
          ≡ ok l
    remove_path_lem true fs b n = rw removes_path (
        remove_then_lem (without p fs) (without-none p fs)
          (λ r e. n r (sym (entry_at-without p (dup_of p) fs (dup_of-ne p)) ∙ e)))
    remove_path_lem false fs b n = remove_then_lem fs (is_some-none (entry_at p fs) b) n

    -- If neither of the two names of the socket is a symbolic link, and the file system permits every
    -- change, the binding succeeds: a file that a former program left under one of the names is replaced
    -- by the new socket, and no other name changes.
    pub bind_path_lem :
        (fs : Files)
        → ((r : List ℕ) → entry_at p fs ≢ some (link r))
        → ((r : List ℕ) → entry_at (dup_of p) fs ≢ some (link r))
        → let (r, fs') = bind_path permits p l fs in
          (r ≡ ok l)
          × (entry_at p fs' ≡ some (file l))
          × (entry_at (dup_of p) fs' ≡ some (file l))
          × ((q : List ℕ) → q ≢ p → q ≢ dup_of p → entry_at q fs' ≡ entry_at q fs)
    bind_path_lem fs n d =
        let e =
          ap
            (λ b.
              (remove_if permits b p
                (λ fs₁.
                  remove_if permits (exists (suc permits.max_links) fs₁ (dup_of p)) (dup_of p)
                    (bind_dup permits p l) fs₁)
                fs).0)
            (exists_taken p fs (entry_at p fs) refl n)
          ∙ remove_path_lem (is_some (entry_at p fs)) fs refl d in
        let (k, m) = bind_path-Binds fs in let x = m l e in (e, x.1, x.2, k)

  taken-link :
      (fs : Files) (q : List ℕ)
      → entry_at p fs ≡ some (link q)
      → (bind_dup permits p l fs).0 ≡ err other
  taken-link fs q e = by_binds (permits.binds && not (is_some (entry_at (dup_of p) fs)))
    where
      by_binds : (b : Bool) → (socket_bound permits b p l fs).0 ≡ err other
      by_binds false = refl
      by_binds true =
          rw (added p (dup_of p) (file l) fs (λ x. dup_of-ne p (sym x)), e)
            (elim (Bool-cases permits.links) [ inl y ↦ rw y refl | inr n ↦ rw n refl ])

  -- A symbolic link under the path that leads to nothing is not removed, and the binding fails.
  pub bind_path-dangling :
      (fs : Files) (q : List ℕ)
      → entry_at p fs ≡ some (link q)
      → exists permits.max_links fs q ≡ false
      → entry_at (dup_of p) fs ≡ none
      → (bind_path permits p l fs).0 ≡ err other
  bind_path-dangling fs q e n d = rw (e, n, d) (taken-link fs q e)
