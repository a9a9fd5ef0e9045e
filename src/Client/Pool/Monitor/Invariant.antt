-- ===== src/Client/Pool/Monitor/Invariant.antt =====
-- What holds of the workers and the tasks of a `ClientPool` (stream/src/client/pool.rs) in every state.
use occams_rpc.Base.{
  ℕ, zero, suc, ◌+◌, ◌≡◌, ◌⊎◌, inl, inr, refl, sym, ap, ◌∙◌, Bool, true, false, List, [], ◌∷◌, ◌++◌,
  map, arith, length-append, append_assoc, append-nil,
}
use occams_rpc.Error.{unreachable}
use occams_rpc.Client.Pool.Monitor.{
  Worker, connecting, monitoring, working, Fate, to_stream, ended_by, Crew, cleaned, unhealthy,
  leaves, counts_in, takes, connected, hands_on, stays, moves_on, works_on, Step, send_req,
  drop_senders, spawn, connects, connect_fails, ping_fails, ping_fails_alone, monitor_ends,
  monitor_sends, monitor_hands_on, worker_sends, worker_flushes, worker_ends, Reach, start, later,
  new_crew,
}
use occams_rpc.Client.Pool.Monitor.Counts.{
  is_monitor, monitors-append, monitors-le, Counts, Counts-moved, Counts-left,
}

module _ {T : Type 0} where
  abbrev pub tasks_of : List (T × Fate) → List T
  tasks_of [] = []
  tasks_of (x ∷ xs) = x.0 ∷ tasks_of xs

  tasks_of-append : (xs ys : List (T × Fate)) → tasks_of (xs ++ ys) ≡ tasks_of xs ++ tasks_of ys
  tasks_of-append [] ys = refl
  tasks_of-append (x ∷ xs) ys = ap (◌∷◌ x.0) (tasks_of-append xs ys)

  tasks_of-cleanup : (q : List T) → tasks_of (map ended_by (map (λ t. (t, unreachable)) q)) ≡ q
  tasks_of-cleanup [] = refl
  tasks_of-cleanup (t ∷ q) = ap (◌∷◌ t) (tasks_of-cleanup q)

  -- The workers are as they are counted, with one monitor; and the tasks that callers have sent are, in
  -- their order, those that were taken from the channel and then those in it.
  pub record IsCrew (c : Crew T) : Type 0 where
    pub counts : Counts c.pool.worker_count c.workers c.has_senders
    pub in_order : c.asked ≡ tasks_of c.taken ++ c.pool.rx

  cleaned-IsCrew : (c : Crew T) → IsCrew c → IsCrew (cleaned (unhealthy c))
  cleaned-IsCrew c h = record {
    counts = h.counts;
    in_order =
        h.in_order
        ∙ (ap (λ x. tasks_of c.taken ++ x) (sym (tasks_of-cleanup c.pool.rx))
            ∙ (sym (tasks_of-append c.taken (map ended_by (map (λ t. (t, unreachable)) c.pool.rx)))
                ∙ sym (append-nil _)));
  }

  takes-IsCrew :
      (t : T) (q : List T) (c : Crew T) → c.pool.rx ≡ t ∷ q → IsCrew c → IsCrew (takes t q c)
  takes-IsCrew t q c e h = record {
    counts = h.counts;
    in_order =
        h.in_order
        ∙ (ap (λ x. tasks_of c.taken ++ x) e
            ∙ (sym (append_assoc (tasks_of c.taken) (t ∷ []) q)
                ∙ ap (λ x. x ++ q) (sym (tasks_of-append c.taken ((t, to_stream) ∷ [])))));
  }

  -- A worker moves to another place.
  moved-IsCrew :
      (xs ys : List Worker) (w w' : Worker) (c : Crew T)
      → c.workers ≡ xs ++ (w ∷ ys)
      → is_monitor w ≡ is_monitor w'
      → IsCrew c
      → IsCrew (record c { workers = xs ++ (w' ∷ ys) })
  moved-IsCrew xs ys w w' c e m h = record {
    counts = Counts-moved c.pool.worker_count c.workers xs ys w w' c.has_senders e m h.counts;
    in_order = h.in_order;
  }

  left-IsCrew :
      (xs ys : List Worker) (w : Worker) (c : Crew T)
      → c.workers ≡ xs ++ (w ∷ ys)
      → (is_monitor w ≡ 0) ⊎ (c.has_senders ≡ false)
      → IsCrew c
      → IsCrew (leaves (xs ++ ys) c)
  left-IsCrew xs ys w c e m h = record {
    counts = Counts-left c.pool.worker_count c.workers xs ys w c.has_senders e m h.counts;
    in_order = h.in_order;
  }

  -- Health and the count of connected workers are no matter here.
  counts_in-IsCrew : (c : Crew T) → IsCrew c → IsCrew (counts_in c)
  counts_in-IsCrew c h = record { counts = h.counts; in_order = h.in_order }

  unhealthy-IsCrew : (c : Crew T) → IsCrew c → IsCrew (unhealthy c)
  unhealthy-IsCrew c h = record { counts = h.counts; in_order = h.in_order }

  connected-IsCrew :
      (n : ℕ) (xs ys : List Worker) (c : Crew T)
      → c.workers ≡ xs ++ (connecting n ∷ ys)
      → IsCrew c
      → IsCrew (connected n xs ys c)
  connected-IsCrew zero xs ys c e h = moved-IsCrew xs ys (connecting 0) monitoring c e refl h
  connected-IsCrew (suc n) xs ys c e h =
      moved-IsCrew xs ys (connecting (suc n)) (working (suc n)) (counts_in c) e refl
        (counts_in-IsCrew c h)

  stays-IsCrew :
      (b : Bool) (xs ys : List Worker) (c : Crew T)
      → c.workers ≡ xs ++ (monitoring ∷ ys)
      → IsCrew c
      → IsCrew (stays b xs ys c)
  stays-IsCrew true xs ys c e h = moved-IsCrew xs ys monitoring monitoring c e refl h
  stays-IsCrew false xs ys c e h =
      cleaned-IsCrew (record c { workers = xs ++ (connecting 0 ∷ ys) })
        (moved-IsCrew xs ys monitoring (connecting 0) c e refl h)

  -- The monitor hands on: a new one comes in, and it is a worker from now on.
  hands_on-IsCrew :
      (xs ys : List Worker) (c : Crew T)
      → c.workers ≡ xs ++ (monitoring ∷ ys)
      → c.pool.worker_count ≡ 1
      → IsCrew c
      → IsCrew (record (hands_on c) { workers = connecting 0 ∷ xs ++ (working 1 ∷ ys) })
  hands_on-IsCrew xs ys c e n h =
      let (k, a, o) =
        Counts-moved c.pool.worker_count c.workers xs ys monitoring monitoring c.has_senders e refl
          h.counts in
      let l = monitors-append xs (monitoring ∷ ys) in
      let m = monitors-append xs (working 1 ∷ ys) in
      record {
        counts = (
          omega
              (arith, k, n, length-append xs (monitoring ∷ ys), length-append xs (working 1 ∷ ys)),
          omega (arith, a, l, m),
          λ t. omega (arith, a, l, m),
        );
        in_order = h.in_order;
      }

  moves_on-IsCrew :
      (b : Bool) (xs ys : List Worker) (c : Crew T)
      → c.workers ≡ xs ++ (monitoring ∷ ys)
      → c.pool.worker_count ≡ 1
      → IsCrew c
      → IsCrew (moves_on b (connecting 0 ∷ xs) ys (hands_on c))
  moves_on-IsCrew true xs ys c e n h =
      let k = hands_on-IsCrew xs ys c e n h in record { counts = k.counts; in_order = k.in_order }
  moves_on-IsCrew false xs ys c e n h =
      let k = hands_on-IsCrew xs ys c e n h in
      let l =
        left-IsCrew (connecting 0 ∷ xs) ys (working 1)
          (record (hands_on c) { workers = connecting 0 ∷ xs ++ (working 1 ∷ ys) }) refl (inl refl)
          k in
      record { counts = l.counts; in_order = l.in_order }

  works_on-IsCrew :
      (b : Bool) (n : ℕ) (xs ys : List Worker) (c : Crew T)
      → c.workers ≡ xs ++ (working n ∷ ys)
      → IsCrew c
      → IsCrew (works_on b n xs ys c)
  works_on-IsCrew true n xs ys c e h = moved-IsCrew xs ys (working n) (working n) c e refl h
  works_on-IsCrew false n xs ys c e h =
      let l = left-IsCrew xs ys (working n) c e (inl refl) h in
      record { counts = l.counts; in_order = l.in_order }

  spawned-IsCrew :
      (n : ℕ) (c : Crew T)
      → c.pool.worker_count ≡ n
      → c.has_senders ≡ true
      → IsCrew c
      → IsCrew (record c {
        pool = record c.pool { worker_count = n + 1 };
        workers = connecting n ∷ c.workers;
      })
  spawned-IsCrew zero c e s h =
      absurd (omega (arith, e, h.counts.0, h.counts.2 s, monitors-le c.workers))
  spawned-IsCrew (suc n) c e s h = record {
    counts =
        (omega (arith, e, h.counts.0), omega (arith, h.counts.1), λ t. omega (arith, h.counts.2 t));
    in_order = h.in_order;
  }

  Step-IsCrew : {c c' : Crew T} → Step c c' → IsCrew c → IsCrew c'
  Step-IsCrew {c} (send_req t s) h = record {
    counts = h.counts;
    in_order =
        ap (λ x. x ++ (t ∷ [])) h.in_order ∙ append_assoc (tasks_of c.taken) c.pool.rx (t ∷ []);
  }
  Step-IsCrew drop_senders h = record {
    counts = (h.counts.0, h.counts.1, λ t. absurd (ground arith));
    in_order = h.in_order;
  }
  Step-IsCrew {c} (spawn s) h = spawned-IsCrew c.pool.worker_count c refl s h
  Step-IsCrew {c} (connects n xs ys e) h = connected-IsCrew n xs ys c e h
  Step-IsCrew {c} (connect_fails n xs ys e) h = cleaned-IsCrew c h
  Step-IsCrew {c} (ping_fails xs ys e) h =
      unhealthy-IsCrew (record c { workers = xs ++ (connecting 0 ∷ ys) })
        (moved-IsCrew xs ys monitoring (connecting 0) c e refl h)
  Step-IsCrew {c} (ping_fails_alone xs ys e) h = stays-IsCrew false xs ys c e h
  Step-IsCrew {c} (monitor_ends xs ys e s q) h = left-IsCrew xs ys monitoring c e (inr s) h
  Step-IsCrew {c} (monitor_sends xs ys t q b e r) h =
      stays-IsCrew b xs ys (takes t q c) e (takes-IsCrew t q c r h)
  Step-IsCrew {c} (monitor_hands_on xs ys t q b e r n) h =
      moves_on-IsCrew b xs ys (takes t q c) e n (takes-IsCrew t q c r h)
  Step-IsCrew {c} (worker_sends n xs ys t q b e r) h =
      works_on-IsCrew b n xs ys (takes t q c) e (takes-IsCrew t q c r h)
  Step-IsCrew {c} (worker_flushes n xs ys b e) h = works_on-IsCrew b n xs ys c e h
  Step-IsCrew {c} (worker_ends n xs ys e s q) h =
      left-IsCrew xs ys (working n) (counts_in c) e (inl refl) (counts_in-IsCrew c h)

  -- In every state that a new pool comes to: worker_count is the number of its workers, the monitor
  -- included; at most one of them is the monitor, and exactly one as long as a caller can send; and the
  -- tasks that callers have sent are, in their order and each once, those that were taken (for a stream,
  -- or ended with Unreachable) and then those that wait in the channel.
  pub Reach-IsCrew : {c : Crew T} → Reach new_crew c → IsCrew c
  Reach-IsCrew start = record {
    counts = (omega arith, omega arith, λ t. omega arith);
    in_order = refl;
  }
  Reach-IsCrew (later r s) = Step-IsCrew s (Reach-IsCrew r)
