-- ===== src/Graceful/HandOver.antt =====
-- A restarted program takes over the listeners of its parent (core/src/graceful.rs).
use occams_rpc.Base.{
  ℕ, ◌≡◌, refl, sym, ap, ◌∙◌, true, false, none, some, List, [], ◌∷◌, ◌++◌, map, append_assoc,
  append-nil,
}
use occams_rpc.Base.Int.{ℤ}
use occams_rpc.Base.Result.{Result, ok}
use occams_rpc.Io.{IoErr}
use occams_rpc.Graceful.{
  GracefulServer, to_string, join, new_graceful, recovered_from, restart_env, new_listener,
}
use occams_rpc.Graceful.Decimal.{AllFds, parse_all-join}

-- A listener with its address and its descriptor.
pub record Listener (L : Type 0) : Type 0 where
  pub addr : List ℕ
  pub fd : ℤ
  pub handle : L

module _ {L : Type 0} where
  abbrev pub fds_of : List (Listener L) → List ℤ
  fds_of [] = []
  fds_of (l ∷ ls) = l.fd ∷ fds_of ls

  abbrev pub addrs_of : List (Listener L) → List (List ℕ)
  addrs_of [] = []
  addrs_of (l ∷ ls) = l.addr ∷ addrs_of ls

  abbrev pub all_open : List (Listener L) → List (Result IoErr L)
  all_open [] = []
  all_open (l ∷ ls) = ok l.handle ∷ all_open ls

  module _ (try_from_raw_fd : List ℕ → ℤ → Result IoErr L) (bind : List ℕ → Result IoErr L)
      (as_raw_fd : L → ℤ) where
    -- `new_listener` for one address after the other.
    abbrev pub open_all : List (List ℕ) → GracefulServer → List (Result IoErr L) × GracefulServer
    open_all [] g = ([], g)
    open_all (addr ∷ addrs) g =
        let (r, g₁) = new_listener try_from_raw_fd bind as_raw_fd addr g in
        let (rs, g₂) = open_all addrs g₁ in (r ∷ rs, g₂)

    -- Each descriptor can be converted for its address.
    abbrev pub Converts : List (Listener L) → Type 0
    Converts [] = Unit {0}
    Converts (l ∷ ls) = (try_from_raw_fd l.addr l.fd ≡ ok l.handle) × Converts ls

    abbrev with_fds : GracefulServer → List ℤ → List (List ℕ) → GracefulServer
    with_fds g recover listen = record g { recover_listen_fds = recover; listen_fds = listen }

    open_all_taken :
        (ls : List (Listener L)) (g : GracefulServer) (listen : List (List ℕ))
        → Converts ls
        → open_all (addrs_of ls) (with_fds g (fds_of ls) listen)
          ≡ (all_open ls, with_fds g [] (listen ++ map to_string (fds_of ls)))
    open_all_taken [] g listen c = ap (λ x. ([], with_fds g [] x)) (sym (append-nil listen))
    open_all_taken (l ∷ ls) g listen c =
        let later = open_all_taken ls g (listen ++ (to_string l.fd ∷ [])) c.1 in
        rw (c.0, later)
          (ap (λ x. (ok l.handle ∷ all_open ls, with_fds g [] x))
            (append_assoc listen (to_string l.fd ∷ []) (map to_string (fds_of ls))))

    -- The child of a program with these listeners: it opens them all again, without binding, and hands
    -- them on in turn; without any it panics.
    abbrev pub HandsOver : List (Listener L) → GracefulServer → List ℕ → Type 0
    HandsOver [] parent close_signals =
        new_graceful (some (restart_env parent)) close_signals ≡ none
    HandsOver (l ∷ ls) parent close_signals =
        (child : GracefulServer) × (new_graceful (some (restart_env parent)) close_signals
          ≡ some child)
        × (child.recovered ≡ true)
        × (open_all (addrs_of (l ∷ ls)) child ≡ (
          all_open (l ∷ ls),
          record child { recover_listen_fds = []; listen_fds = parent.listen_fds },
        ))

    -- A program that is restarted with listeners has a child that takes over each of them, in their
    -- order and under the address it asks for, and binds none; the child can hand them on as its parent
    -- did. Without a listener the child panics. The conditions: the descriptors are no negative numbers
    -- of 32 bits, and each can be converted for its address.
    pub restart-HandsOver :
        (ls : List (Listener L)) (parent : GracefulServer) (close_signals : List ℕ)
        → parent.listen_fds ≡ map to_string (fds_of ls)
        → AllFds (fds_of ls)
        → Converts ls
        → HandsOver ls parent close_signals
    restart-HandsOver [] parent close_signals e a c =
        ap (λ x. new_graceful (some (join x)) close_signals) e
    restart-HandsOver (l ∷ ls) parent close_signals e a c =
        let fresh : GracefulServer = record {
          listen_fds = [];
          recovered = false;
          recover_listen_fds = [];
          close_signals = close_signals;
        } in
        (
          record fresh { recovered = true; recover_listen_fds = fds_of (l ∷ ls) },
          ap (λ x. new_graceful (some (join x)) close_signals) e
              ∙ ap (recovered_from fresh) (parse_all-join l.fd (fds_of ls) a),
          refl,
          open_all_taken (l ∷ ls) (record fresh { recovered = true }) [] c
              ∙ ap
                  (λ x. (
                    all_open (l ∷ ls),
                    record fresh { recovered = true; recover_listen_fds = []; listen_fds = x },
                  ))
                  (sym e),
        )
