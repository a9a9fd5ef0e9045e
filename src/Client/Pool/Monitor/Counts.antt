-- ===== src/Client/Pool/Monitor/Counts.antt =====
-- The workers of a `ClientPool` (stream/src/client/pool.rs) and their count.
use occams_rpc.Base.{
  ℕ, zero, suc, ◌+◌, ◌-◌, ◌≤◌, ◌≡◌, ◌⊎◌, inl, inr, ap, Bool, true, false, List, [], ◌∷◌, ◌++◌,
  arith, length, length-append,
}
use occams_rpc.Client.Pool.Monitor.{Worker, connecting, monitoring, working}

-- Number 0 is the monitor.
abbrev pub is_monitor : Worker → ℕ
is_monitor (connecting zero) = 1
is_monitor (connecting (suc n)) = 0
is_monitor monitoring = 1
is_monitor (working n) = 0

abbrev pub monitors : List Worker → ℕ
monitors [] = 0
monitors (w ∷ ws) = is_monitor w + monitors ws

pub monitors-append : (xs ys : List Worker) → monitors (xs ++ ys) ≡ monitors xs + monitors ys
monitors-append [] ys = omega arith
monitors-append (w ∷ xs) ys = omega (arith, monitors-append xs ys)

pub monitors-le : (ws : List Worker) → monitors ws ≤ length ws
monitors-le [] = omega arith
monitors-le (connecting zero ∷ ws) = omega (arith, monitors-le ws)
monitors-le (connecting (suc n) ∷ ws) = omega (arith, monitors-le ws)
monitors-le (monitoring ∷ ws) = omega (arith, monitors-le ws)
monitors-le (working n ∷ ws) = omega (arith, monitors-le ws)

-- The count is right, and there is one monitor as long as somebody can send.
abbrev pub Counts : ℕ → List Worker → Bool → Type 0
Counts n ws has_senders =
    (n ≡ length ws) × (monitors ws ≤ 1) × (has_senders ≡ true → monitors ws ≡ 1)

pub Counts-moved :
    (n : ℕ) (ws xs ys : List Worker) (w w' : Worker) (s : Bool)
    → ws ≡ xs ++ (w ∷ ys)
    → is_monitor w ≡ is_monitor w'
    → Counts n ws s
    → Counts n (xs ++ (w' ∷ ys)) s
Counts-moved n ws xs ys w w' s e m (c, a, o) = (
  omega (arith, c, ap length e, length-append xs (w ∷ ys), length-append xs (w' ∷ ys)),
  omega (arith, a, same),
  λ t. omega (arith, o t, same),
)
  where
    same : monitors (xs ++ (w' ∷ ys)) ≡ monitors ws
    same =
        omega (arith, m, ap monitors e, monitors-append xs (w ∷ ys), monitors-append xs (w' ∷ ys))

pub Counts-left :
    (n : ℕ) (ws xs ys : List Worker) (w : Worker) (s : Bool)
    → ws ≡ xs ++ (w ∷ ys)
    → (is_monitor w ≡ 0) ⊎ (s ≡ false)
    → Counts n ws s
    → Counts (n - 1) (xs ++ ys) s
Counts-left n ws xs ys w s e m (c, a, o) = (
  omega (arith, c, ap length e, length-append xs (w ∷ ys), length-append xs ys),
  omega (arith, a, split, monitors-append xs ys),
  λ t. elim m [
    | inl z ↦ omega (arith, o t, z, split, monitors-append xs ys)
    | inr f ↦ absurd (ground arith)
  ],
)
  where
    split : monitors ws ≡ monitors xs + (is_monitor w + monitors ys)
    split = omega (arith, ap monitors e, monitors-append xs (w ∷ ys))
