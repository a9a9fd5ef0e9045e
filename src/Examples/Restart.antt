-- ===== src/Examples/Restart.antt =====
-- The restart of core/src/graceful.rs and the binding of transport/tcp/src/net.rs at concrete inputs.
use occams_rpc.Base.{ℕ, ◌*◌, ◌≡◌, ◌≢◌, refl, true, false, some, List, [], ◌∷◌, arith}
use occams_rpc.Base.Int.{ℤ, pos}
use occams_rpc.Base.Result.{Result, ok, err}
use occams_rpc.Io.{IoErr, other}
use occams_rpc.Graceful.{GracefulServer, ready_loop}
use occams_rpc.Graceful.HandOver.{Listener, HandsOver, restart-HandsOver}
use occams_rpc.Graceful.Signals.{Readies, ready_loop-Readies}
use occams_rpc.Tcp.Addr.{Permits, file, link, Files, dup_of, entry_at, bind_path}
use occams_rpc.Tcp.Addr.Bind.{bind_path_lem}

abbrev http : Listener ℕ
http = record { addr = 58 ∷ 56 ∷ []; fd = pos 7; handle = 70 }

abbrev admin : Listener ℕ
admin = record { addr = 58 ∷ 57 ∷ []; fd = pos 120; handle = 1200 }

-- It listens on the descriptors 7 and 120.
abbrev running : GracefulServer
running = record {
  listen_fds = (55 ∷ []) ∷ (49 ∷ 50 ∷ 48 ∷ []) ∷ [];
  recovered = false;
  recover_listen_fds = [];
  close_signals = 15 ∷ [];
}

-- A handle is ten times its descriptor.
abbrev from_fd : List ℕ → ℤ → Result {0, 0} IoErr ℕ
from_fd addr (pos n) = ok (n * 10)
from_fd addr fd = err other

restart-HandsOver_example :
    HandsOver from_fd (λ a. err other) (λ l. pos l) (http ∷ admin ∷ []) running (15 ∷ [])
restart-HandsOver_example =
    restart-HandsOver from_fd (λ a. err other) (λ l. pos l) (http ∷ admin ∷ []) running (15 ∷ [])
      refl (omega arith, (omega arith, tt)) (refl, (refl, tt))

-- A restart by signal 10 that fails, one that succeeds, and a signal too late.
ready_loop-Readies_example :
    Readies
      (some 10)
      ((10, err other) ∷ (10, ok tt) ∷ (15, ok tt) ∷ [])
      (ready_loop (some 10) ((10, err other) ∷ (10, ok tt) ∷ (15, ok tt) ∷ []))
ready_loop-Readies_example =
    ready_loop-Readies (some 10) ((10, err other) ∷ (10, ok tt) ∷ (15, ok tt) ∷ [])

abbrev permissive : Permits
permissive = record {
  max_links = 40;
  removes = λ p. true;
  binds = true;
  links = true;
  sets_mode = true;
}

-- A socket of an earlier program, and a link that leads to nothing.
abbrev old_files : Files
old_files = (47 ∷ 115 ∷ [], file 3) ∷ (47 ∷ 120 ∷ [], link (47 ∷ 122 ∷ [])) ∷ []

bind_path_lem_example :
    let (r, fs) = bind_path permissive (47 ∷ 115 ∷ []) 9 old_files in
    (r ≡ ok 9)
    × (entry_at (47 ∷ 115 ∷ []) fs ≡ some (file 9))
    × (entry_at (dup_of (47 ∷ 115 ∷ [])) fs ≡ some (file 9))
    × ((q : List ℕ)
        → q ≢ (47 ∷ 115 ∷ [])
        → q ≢ dup_of (47 ∷ 115 ∷ [])
        → entry_at q fs ≡ entry_at q old_files)
bind_path_lem_example =
    bind_path_lem permissive (47 ∷ 115 ∷ []) 9 refl refl refl refl refl old_files
      (λ r e. absurd (ground arith)) (λ r e. absurd (ground arith))
