-- ===== src/Client/Map.antt =====
-- `FxHashMap<u64, _>` as a list of entries, at most one for a key.
use occams_rpc.Base.{
  ℕ, ◌≤◌, ◌<◌, ◌≡◌, refl, ap, Bool-cases, inl, inr, Option, none, some, List, [], ◌∷◌, ◌++◌, ◌==◌,
  if◌then◌else◌, arith,
}

module _ {T : Type 0} where
  abbrev pub keys : List (ℕ × T) → List ℕ
  keys [] = []
  keys ((k, x) ∷ m) = k ∷ keys m

  abbrev pub values : List (ℕ × T) → List T
  values [] = []
  values ((k, x) ∷ m) = x ∷ values m

  -- `insert`: an entry of the same key is replaced.
  abbrev pub insert : ℕ → T → List (ℕ × T) → List (ℕ × T)
  insert k x [] = (k, x) ∷ []
  insert k x ((l, y) ∷ m) = let rest = insert k x m in if l == k then (k, x) ∷ m else (l, y) ∷ rest

  -- `remove`: the value that the key had, and the other entries.
  abbrev pub lookup : ℕ → List (ℕ × T) → Option T
  lookup k [] = none
  lookup k ((l, y) ∷ m) = let rest = lookup k m in if l == k then some y else rest

  abbrev pub removed : ℕ → List (ℕ × T) → List (ℕ × T)
  removed k [] = []
  removed k ((l, y) ∷ m) = let rest = removed k m in if l == k then m else (l, y) ∷ rest

  -- Every key lies below, or above, a bound.
  abbrev pub Under : ℕ → List (ℕ × T) → Type 0
  Under b [] = Unit
  Under b ((k, x) ∷ m) = (k < b) × Under b m

  abbrev pub Over : ℕ → List (ℕ × T) → Type 0
  Over b [] = Unit
  Over b ((k, x) ∷ m) = (b ≤ k) × Over b m

  -- A key above all the others is inserted behind them.
  pub insert-Under :
      (k : ℕ) (x : T) (m : List (ℕ × T)) → Under k m → insert k x m ≡ m ++ ((k, x) ∷ [])
  insert-Under k x [] u = refl
  insert-Under k x ((l, y) ∷ m) u = elim (Bool-cases (l == k)) [
    | inl same ↦ absurd (ground (arith, u.0))
    | inr differs ↦ rw differs (ap (◌∷◌ (l, y)) (insert-Under k x m u.1))
  ]

  pub Under-mono : (b c : ℕ) (m : List (ℕ × T)) → b ≤ c → Under b m → Under c m
  Under-mono b c [] h u = tt
  Under-mono b c ((k, x) ∷ m) h u = (omega (arith, h, u.0), Under-mono b c m h u.1)

  pub Over-mono : (b c : ℕ) (m : List (ℕ × T)) → b ≤ c → Over c m → Over b m
  Over-mono b c [] h u = tt
  Over-mono b c ((k, x) ∷ m) h u = (omega (arith, h, u.0), Over-mono b c m h u.1)

  pub Under-append : (b : ℕ) (m n : List (ℕ × T)) → Under b m → Under b n → Under b (m ++ n)
  Under-append b [] n u v = v
  Under-append b ((k, x) ∷ m) n u v = (u.0, Under-append b m n u.1 v)

  pub Over-append : (b : ℕ) (m n : List (ℕ × T)) → Over b m → Over b n → Over b (m ++ n)
  Over-append b [] n u v = v
  Over-append b ((k, x) ∷ m) n u v = (u.0, Over-append b m n u.1 v)

  -- A key outside the bounds is not found.
  pub lookup-Under : (k b : ℕ) (m : List (ℕ × T)) → b ≤ k → Under b m → lookup k m ≡ none
  lookup-Under k b [] h u = refl
  lookup-Under k b ((l, y) ∷ m) h u = ground (arith, u.0, lookup-Under k b m h u.1)

  pub lookup-Over : (k b : ℕ) (m : List (ℕ × T)) → k < b → Over b m → lookup k m ≡ none
  lookup-Over k b [] h u = refl
  lookup-Over k b ((l, y) ∷ m) h u = ground (arith, u.0, lookup-Over k b m h u.1)

  pub removed-none : (k : ℕ) (m : List (ℕ × T)) → lookup k m ≡ none → removed k m ≡ m
  removed-none k [] h = refl
  removed-none k ((l, y) ∷ m) h = elim (Bool-cases (l == k)) [
    | inl same ↦ absurd (ground (arith, same, h))
    | inr differs ↦ rw differs (ap (◌∷◌ (l, y)) (removed-none k m (ground (arith, differs, h))))
  ]

  -- What the first list does not have, the whole has where the second has it.
  pub lookup-append :
      (k : ℕ) (m n : List (ℕ × T))
      → lookup k (m ++ n) ≡ elim (lookup k m) [ some x ↦ some x | none ↦ lookup k n ]
  lookup-append k [] n = refl
  lookup-append k ((l, y) ∷ m) n = elim (Bool-cases (l == k)) [
    | inl same ↦ rw same refl
    | inr differs ↦ rw differs (lookup-append k m n)
  ]

  pub removed-append_first :
      (k : ℕ) (x : T) (m n : List (ℕ × T))
      → lookup k m ≡ some x
      → removed k (m ++ n) ≡ removed k m ++ n
  removed-append_first k x [] n h = absurd (ground (arith, h))
  removed-append_first k x ((l, y) ∷ m) n h = elim (Bool-cases (l == k)) [
    | inl same ↦ rw same refl
    | inr differs ↦
        rw differs (ap (◌∷◌ (l, y)) (removed-append_first k x m n (ground (arith, differs, h))))
  ]

  pub removed-append_second :
      (k : ℕ) (m n : List (ℕ × T)) → lookup k m ≡ none → removed k (m ++ n) ≡ m ++ removed k n
  removed-append_second k [] n h = refl
  removed-append_second k ((l, y) ∷ m) n h = elim (Bool-cases (l == k)) [
    | inl same ↦ absurd (ground (arith, same, h))
    | inr differs ↦
        rw differs (ap (◌∷◌ (l, y)) (removed-append_second k m n (ground (arith, differs, h))))
  ]
