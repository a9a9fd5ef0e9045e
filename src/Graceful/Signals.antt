-- ===== src/Graceful/Signals.antt =====
-- The loop over the signals in `ready` (core/src/graceful.rs).
use occams_rpc.Base.{
  ℕ, ◌≡◌, refl, ap, true, false, Bool-cases, inl, inr, Option, List, [], ◌∷◌, ◌++◌,
}
use occams_rpc.Base.Result.{Result, ok, err}
use occams_rpc.Io.{IoErr}
use occams_rpc.Graceful.{Readied, waits, exits, restarts, on_restart, is_restart, ready_loop}

-- A signal, and how a restart would end.
abbrev pub Signal : Type 0
Signal = ℕ × Result {0, 0} IoErr (Unit {0})

abbrev pub Fails : Result {0, 0} IoErr (Unit {0}) → Type 0
Fails (ok u) = ⊥
Fails (err e) = Unit {0}

module _ (restart_signal : Option ℕ) where
  -- Each of these asks for a restart, which fails.
  abbrev pub AllFail : List Signal → Type 0
  AllFail [] = Unit {0}
  AllFail (x ∷ xs) = (is_restart restart_signal x.0 ≡ true) × Fails x.1 × AllFail xs

  -- What the loop does with these signals.
  abbrev pub Readies : List Signal → Readied → Type 0
  Readies xs waits = AllFail xs
  Readies xs (exits rest) =
      (before : List Signal) × (x : Signal) × (xs ≡ before ++ (x ∷ rest))
      × AllFail before
      × (is_restart restart_signal x.0 ≡ false)
  Readies xs (restarts rest) =
      (before : List Signal) × (signal : ℕ) × (xs ≡ before ++ ((signal, ok tt) ∷ rest))
      × AllFail before
      × (is_restart restart_signal signal ≡ true)

  later-Readies :
      (x : Signal) (xs : List Signal) (r : Readied)
      → is_restart restart_signal x.0 ≡ true
      → Fails x.1
      → Readies xs r
      → Readies (x ∷ xs) r
  later-Readies x xs waits e f h = (e, f, h)
  later-Readies x xs (exits rest) e f (before, y, p, a, n) =
      (x ∷ before, y, ap (◌∷◌ x) p, (e, f, a), n)
  later-Readies x xs (restarts rest) e f (before, s, p, a, n) =
      (x ∷ before, s, ap (◌∷◌ x) p, (e, f, a), n)

  on_restart-Readies :
      (signal : ℕ) (o : Result {0, 0} IoErr (Unit {0})) (rest : List Signal) (later : Readied)
      → is_restart restart_signal signal ≡ true
      → Readies rest later
      → Readies ((signal, o) ∷ rest) (on_restart o later rest)
  on_restart-Readies signal (ok tt) rest later e h = ([], signal, refl, tt, e)
  on_restart-Readies signal (err x) rest later e h = later-Readies (signal, err x) rest later e tt h

  -- The program ends behind the first signal that is not the one for a restart, or behind the first
  -- restart that succeeds, whichever comes first, and reads no later signal; a restart that fails
  -- leaves it running, and as long as there is nothing else it waits.
  pub ready_loop-Readies : (xs : List Signal) → Readies xs (ready_loop restart_signal xs)
  ready_loop-Readies [] = tt
  ready_loop-Readies ((signal, o) ∷ rest) = elim (Bool-cases (is_restart restart_signal signal)) [
    | inl e ↦ rw e (
        on_restart-Readies signal o rest (ready_loop restart_signal rest) e
          (ready_loop-Readies rest))
    | inr e ↦ rw e ([], (signal, o), refl, tt, e)
  ]
