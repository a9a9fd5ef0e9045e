-- ===== src/Graceful/Decimal.antt =====
-- A file descriptor in the environment (core/src/graceful.rs): printed, joined, split and parsed.
use occams_rpc.Base.{
  ℕ, zero, suc, ◌+◌, ◌-◌, ◌*◌, ◌/◌, ◌%◌, ◌^◌, ◌≤◌, ◌<◌, ◌≡◌, refl, ap, ◌∙◌, false, Bool-cases, inl,
  inr, some, List, [], ◌∷◌, ◌++◌, map, arith, length, length-append, ltb, leb, ◌==◌, ◌&&◌,
}
use occams_rpc.Base.Int.{ℤ, pos, negsuc}
use occams_rpc.Graceful.{
  digits, to_string, parse_digits, parse_fd, split_first, split, join, parse_all,
}

-- A text of digits.
abbrev AllDigits : List ℕ → Type 0
AllDigits [] = Unit
AllDigits (c ∷ s) = (48 ≤ c) × (c ≤ 57) × AllDigits s

AllDigits-snoc : (s : List ℕ) (c : ℕ) → AllDigits s → 48 ≤ c → c ≤ 57 → AllDigits (s ++ (c ∷ []))
AllDigits-snoc [] c a l h = (l, h, tt)
AllDigits-snoc (x ∷ s) c a l h = (a.0, a.1, AllDigits-snoc s c a.2 l h)

digits-AllDigits : (fuel n : ℕ) → AllDigits (digits fuel n)
digits-AllDigits zero n = tt
digits-AllDigits (suc fuel) n = elim (Bool-cases (ltb n 10)) [
  | inl e ↦ rw e (omega arith, ground arith, tt)
  | inr e ↦ rw e (
      AllDigits-snoc (digits fuel (n / 10)) (48 + n % 10) (digits-AllDigits fuel (n / 10))
        (omega arith) (omega arith))
]

-- A digit behind a text of digits.
parse_digits-snoc :
    (s : List ℕ) (acc c n : ℕ)
    → 48 ≤ c
    → c ≤ 57
    → parse_digits acc s ≡ some n
    → parse_digits acc (s ++ (c ∷ [])) ≡ some (n * 10 + (c - 48))
parse_digits-snoc [] acc c n l h e = ground arith
parse_digits-snoc (x ∷ s) acc c n l h e = elim (Bool-cases (leb 48 x && leb x 57)) [
  | inl b ↦ rw b (parse_digits-snoc s (acc * 10 + (x - 48)) c n l h (simp b at e))
  | inr b ↦ absurd (ground arith)
]

abbrev tens : ℕ → ℕ
tens zero = 1
tens (suc fuel) = 10 * tens fuel

parse_digits-digits : (fuel n : ℕ) → n < tens fuel → parse_digits 0 (digits fuel n) ≡ some n
parse_digits-digits zero n h = ap some (omega arith)
parse_digits-digits (suc fuel) n h = elim (Bool-cases (ltb n 10)) [
  | inl e ↦ rw e (ground arith)
  | inr e ↦ rw e (
      parse_digits-snoc (digits fuel (n / 10)) 0 (48 + n % 10) (n / 10) (omega arith) (omega arith)
        (parse_digits-digits fuel (n / 10) (omega arith))
      ∙ ap some (omega arith))
]

-- A file descriptor is no negative number.
abbrev pub IsFd : ℤ → Type 0
IsFd (pos n) = n < 2 ^ 31
IsFd (negsuc n) = ⊥

parse_fd-digits :
    (s : List ℕ) (n : ℕ)
    → AllDigits s
    → 0 < length s
    → parse_digits 0 s ≡ some n
    → n < 2 ^ 31
    → parse_fd s ≡ some (pos n)
parse_fd-digits [] n a l e h = absurd (omega arith)
parse_fd-digits (c ∷ s) n a l e h =
    let no_minus : (c == 45) ≡ false = ground arith in
    let no_plus : (c == 43) ≡ false = ground arith in rw (no_minus, no_plus, e) (ground arith)

length-digits : (fuel n : ℕ) → 0 < length (digits (suc fuel) n)
length-digits fuel n = elim (Bool-cases (ltb n 10)) [
  | inl e ↦ rw e (omega arith)
  | inr e ↦ rw e (omega (arith, length-append (digits fuel (n / 10)) ((48 + n % 10) ∷ [])))
]

-- A descriptor that is printed is parsed as the same.
parse_fd-to_string : (fd : ℤ) → IsFd fd → parse_fd (to_string fd) ≡ some fd
parse_fd-to_string (pos n) h =
    parse_fd-digits (digits 10 n) n (digits-AllDigits 10 n) (length-digits 9 n)
      (parse_digits-digits 10 n (omega arith)) h
parse_fd-to_string (negsuc n) h = absurd h

to_string-AllDigits : (fd : ℤ) → IsFd fd → AllDigits (to_string fd)
to_string-AllDigits (pos n) h = digits-AllDigits 10 n
to_string-AllDigits (negsuc n) h = absurd h

-- A text without a comma is one part.
split_first-digits : (s : List ℕ) → AllDigits s → split_first s ≡ (s, [])
split_first-digits [] a = refl
split_first-digits (c ∷ s) a =
    let no_comma : (c == 44) ≡ false = ground arith in rw (no_comma, split_first-digits s a.2) refl

split_first-comma : (s r : List ℕ) → AllDigits s → split_first (s ++ (44 ∷ r)) ≡ (s, split r)
split_first-comma [] r a = refl
split_first-comma (c ∷ s) r a =
    let no_comma : (c == 44) ≡ false = ground arith in rw (no_comma, split_first-comma s r a.2) refl

abbrev pub AllFds : List ℤ → Type 0
AllFds [] = Unit {0}
AllFds (fd ∷ fds) = IsFd fd × AllFds fds

split-join :
    (fd : ℤ) (fds : List ℤ)
    → AllFds (fd ∷ fds)
    → split (join (map to_string (fd ∷ fds))) ≡ map to_string (fd ∷ fds)
split-join fd [] a = rw (split_first-digits (to_string fd) (to_string-AllDigits fd a.0)) refl
split-join fd (fd' ∷ fds) a =
    rw
      (split_first-comma (to_string fd) (join (map to_string (fd' ∷ fds)))
        (to_string-AllDigits fd a.0))
      (ap (◌∷◌ (to_string fd)) (split-join fd' fds a.1))

parse_all-map : (fds : List ℤ) → AllFds fds → parse_all (map to_string fds) ≡ some fds
parse_all-map [] a = refl
parse_all-map (fd ∷ fds) a = rw (parse_fd-to_string fd a.0, parse_all-map fds a.1) refl

-- The descriptors of the listeners come back from the environment as they were, if there is one.
pub parse_all-join :
    (fd : ℤ) (fds : List ℤ)
    → AllFds (fd ∷ fds)
    → parse_all (split (join (map to_string (fd ∷ fds)))) ≡ some (fd ∷ fds)
parse_all-join fd fds a = ap parse_all (split-join fd fds a) ∙ parse_all-map (fd ∷ fds) a
