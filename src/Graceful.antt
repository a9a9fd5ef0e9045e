-- ===== src/Graceful.antt =====
-- core/src/graceful.rs: the listeners that a restarted program takes over from its parent, and the
-- signals that start a restart or end the program. What the system answers (binding, the conversion of
-- a file descriptor, the child process, the signals) is an argument. A panic is none.
pub mod Decimal
pub mod HandOver
pub mod Signals
use occams_rpc.Base.{
  ℕ, zero, suc, ◌+◌, ◌-◌, ◌*◌, ◌/◌, ◌%◌, ◌^◌, Bool, true, false, ◌&&◌, Option, none, some, List, [],
  ◌∷◌, ◌++◌, map, ltb, leb, ◌==◌, if◌then◌else◌,
}
use occams_rpc.Base.Int.{ℤ, pos, negsuc}
use occams_rpc.Base.Result.{Result, ok, err}
use occams_rpc.Io.{IoErr, other}

-- `GracefulServer`, less the directory, the name and the timeout.
pub record GracefulServer : Type 0 where
  pub listen_fds : List (List ℕ)
  pub recovered : Bool
  pub recover_listen_fds : List ℤ
  pub close_signals : List ℕ

-- `to_string` of a number: `fuel` bounds its digits.
abbrev pub digits : ℕ → ℕ → List ℕ
digits zero n = []
digits (suc fuel) n =
    let front = digits fuel (n / 10) in
    if ltb n 10 then (48 + n) ∷ [] else front ++ ((48 + n % 10) ∷ [])

-- A number of 32 bits has at most ten digits.
abbrev pub to_string : ℤ → List ℕ
to_string (pos n) = digits 10 n
to_string (negsuc n) = 45 ∷ digits 10 (suc n)

-- The digits of `parse`, behind those that were read.
abbrev pub parse_digits : ℕ → List ℕ → Option ℕ
parse_digits acc [] = some acc
parse_digits acc (d ∷ ds) =
    let rest = parse_digits (acc * 10 + (d - 48)) ds in if leb 48 d && leb d 57 then rest else none

abbrev pub parse_nat : List ℕ → Option ℕ
parse_nat [] = none
parse_nat (d ∷ ds) = parse_digits 0 (d ∷ ds)

-- The range of an i32.
abbrev pub in_range : Option ℕ → Option ℤ
in_range none = none
in_range (some n) = if ltb n (2 ^ 31) then some (pos n) else none

abbrev pub negated : Option ℕ → Option ℤ
negated none = none
negated (some zero) = some (pos 0)
negated (some (suc n)) = if ltb n (2 ^ 31) then some (negsuc n) else none

-- `parse::<RawFd>`: a sign may stand before the digits.
abbrev pub parse_fd : List ℕ → Option ℤ
parse_fd [] = none
parse_fd (c ∷ ds) =
    if c == 45
    then negated (parse_nat ds)
    else if c == 43
    then in_range (parse_nat ds)
    else in_range (parse_digits 0 (c ∷ ds))

-- `split(',')`: the part up to the first comma, and those behind it.
abbrev pub add_first : ℕ → List ℕ × List (List ℕ) → List ℕ × List (List ℕ)
add_first c (part, parts) = (c ∷ part, parts)

abbrev pub split_first : List ℕ → List ℕ × List (List ℕ)
split_first [] = ([], [])
split_first (c ∷ s) =
    let rest = split_first s in if c == 44 then ([], rest.0 ∷ rest.1) else add_first c rest

abbrev pub split : List ℕ → List (List ℕ)
split s = (split_first s).0 ∷ (split_first s).1

-- `join(",")`
abbrev pub join : List (List ℕ) → List ℕ
join [] = []
join (s ∷ []) = s
join (s ∷ t ∷ ts) = s ++ (44 ∷ join (t ∷ ts))

abbrev pub and_fd : Option ℤ → Option (List ℤ) → Option (List ℤ)
and_fd none fds = none
and_fd (some fd) none = none
and_fd (some fd) (some fds) = some (fd ∷ fds)

abbrev pub parse_all : List (List ℕ) → Option (List ℤ)
parse_all [] = some []
parse_all (s ∷ ss) = and_fd (parse_fd s) (parse_all ss)

abbrev pub recovered_from : GracefulServer → Option (List ℤ) → Option GracefulServer
recovered_from g none = none
recovered_from g (some fds) =
    some (record g { recover_listen_fds = g.recover_listen_fds ++ fds; recovered = true })

-- `check_recover`, by the environment variable.
abbrev pub check_recover : Option (List ℕ) → GracefulServer → Option GracefulServer
check_recover none g = some g
check_recover (some fds_str) g = recovered_from g (parse_all (split fds_str))

-- `GracefulServer::new`
abbrev pub new_graceful : Option (List ℕ) → List ℕ → Option GracefulServer
new_graceful env close_signals = check_recover env (record {
  listen_fds = [];
  recovered = false;
  recover_listen_fds = [];
  close_signals = close_signals;
})

-- The environment variable that `restart` sets for the child.
abbrev pub restart_env : GracefulServer → List ℕ
restart_env g = join g.listen_fds

module _ {L : Type 0} (try_from_raw_fd : List ℕ → ℤ → Result IoErr L)
    (bind : List ℕ → Result IoErr L) (as_raw_fd : L → ℤ) where
  abbrev pub bound : Result IoErr L → GracefulServer → Result IoErr L × GracefulServer
  bound (err e) g = (err e, g)
  bound (ok l) g = (ok l, record g { listen_fds = g.listen_fds ++ (to_string (as_raw_fd l) ∷ []) })

  abbrev pub converted :
      List ℕ → ℤ → Result IoErr L → GracefulServer → Result IoErr L × GracefulServer
  converted addr fd (ok l) g = (ok l, record g { listen_fds = g.listen_fds ++ (to_string fd ∷ []) })
  converted addr fd (err e) g = bound (bind addr) g

  abbrev pub listener_from : List ℤ → List ℕ → GracefulServer → Result IoErr L × GracefulServer
  listener_from [] addr g = bound (bind addr) g
  listener_from (fd ∷ fds) addr g =
      converted addr fd (try_from_raw_fd addr fd) (record g { recover_listen_fds = fds })

  -- `new_listener`
  abbrev pub new_listener : List ℕ → GracefulServer → Result IoErr L × GracefulServer
  new_listener addr g = listener_from g.recover_listen_fds addr g

-- What the wait for the child finds: each look whether its file is there, within the timeout, and
-- then how `try_wait` ends.
pub data Waited : Type 0 where
  child_exited : Waited
  child_runs : Waited
  wait_failed : Waited

abbrev pub restart_waited : List Bool → Waited → Result {0, 0} IoErr (Unit {0})
restart_waited [] child_exited = err other
restart_waited [] child_runs = ok tt
restart_waited [] wait_failed = err other
restart_waited (true ∷ looks) w = ok tt
restart_waited (false ∷ looks) w = restart_waited looks w

-- `restart`, less the arguments and the inherited descriptors.
abbrev pub restart :
    Result {0, 0} IoErr (Unit {0}) → List Bool → Waited → Result {0, 0} IoErr (Unit {0})
restart (err e) looks w = err e
restart (ok u) looks w = restart_waited looks w

abbrev pub contains : ℕ → List ℕ → Bool
contains x [] = false
contains x (y ∷ ys) = let rest = contains x ys in if y == x then true else rest

-- The signals that `ready` waits for.
abbrev pub waited_signals : Option ℕ → List ℕ → List ℕ
waited_signals none sigs = sigs
waited_signals (some s) sigs = if contains s sigs then sigs else sigs ++ (s ∷ [])

-- What `ready` does: it still waits, or it runs `exit_closure` behind an exit or a restart, with the
-- signals that come later.
pub data Readied : Type 0 where
  waits : Readied
  exits : List (ℕ × Result {0, 0} IoErr (Unit {0})) → Readied
  restarts : List (ℕ × Result {0, 0} IoErr (Unit {0})) → Readied

-- One round of the loop: the signal, and how a restart would end.
abbrev pub on_restart :
    Result {0, 0} IoErr (Unit {0}) → Readied → List (ℕ × Result {0, 0} IoErr (Unit {0})) → Readied
on_restart (ok u) later rest = restarts rest
on_restart (err e) later rest = later

abbrev pub is_restart : Option ℕ → ℕ → Bool
is_restart none signal = false
is_restart (some s) signal = s == signal

abbrev pub ready_loop : Option ℕ → List (ℕ × Result {0, 0} IoErr (Unit {0})) → Readied
ready_loop restart_signal [] = waits
ready_loop restart_signal ((signal, outcome) ∷ rest) =
    let later = ready_loop restart_signal rest in
    if is_restart restart_signal signal then on_restart outcome later rest else exits rest
