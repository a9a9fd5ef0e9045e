-- ===== src/Client/Pool.antt =====
-- stream/src/client/pool.rs: `ClientPool`, whose workers take tasks from a bounded channel and send them
-- on their stream. A stream is what its `send_task` and `flush_req` do to a state. Of the monitor only
-- the cleaning of the channel is here.
pub mod Monitor
use occams_rpc.Base.{
  ℕ, ◌+◌, ◌%◌, ◌^◌, ◌≡◌, refl, ap, Bool, false, List, [], ◌∷◌, ◌++◌, map, ltb, ◌==◌, if◌then◌else◌,
}
use occams_rpc.Base.Result.{Result, ok, err}
use occams_rpc.Error.{RpcIntErr, unreachable}

-- The capacity of the channel that `new` makes.
abbrev pub channel_capacity : ℕ → ℕ → ℕ
channel_capacity thresholds channel_size =
    if ltb 0 thresholds
    then (if ltb channel_size thresholds then thresholds else channel_size)
    else if channel_size == 0
    then 128
    else channel_size

-- `ClientPoolInner`, with the tasks in its channel.
pub record Pool (T : Type 0) : Type 0 where
  pub rx : List T
  pub is_ok : Bool
  pub worker_count : ℕ
  pub connected_worker_count : ℕ

module _ {T : Type 0} where
  -- `cleanup`: the tasks handed to `error_handle`, and the pool.
  abbrev pub cleanup : Pool T → List (T × RpcIntErr) × Pool T
  cleanup p = (map (λ t. (t, unreachable)) p.rx, record p { rx = [] })

  abbrev pub set_err : Pool T → Pool T
  set_err p = record p { is_ok = false }

  module _ {S : Type 0} (send_task : T → S → Result {0, 0} RpcIntErr Unit × S)
      (flush_req : S → Result {0, 0} RpcIntErr Unit × S) where
    -- How a round ends: its result, the tasks handed to the stream, those still in the channel, and the
    -- stream.
    abbrev pub Round : Type 0
    Round = Result {0, 0} RpcIntErr Unit × List T × List T × S

    abbrev pub round_flushed : Result {0, 0} RpcIntErr Unit × S → Round
    round_flushed (r, s) = (r, [], [], s)

    abbrev pub after_send : T → List T → (S → Round) → Result {0, 0} RpcIntErr Unit × S → Round
    after_send t q next (ok u, s) = let (r, handed, left, s') = next s in (r, t ∷ handed, left, s')
    after_send t q next (err e, s) = (err e, t ∷ [], q, s)

    -- The body of `_run_worker`'s loop: what `try_recv` still finds is sent too, then comes the flush.
    -- On a closed channel only the flush is left.
    abbrev pub worker_round : List T → S → Round
    worker_round [] s = round_flushed (flush_req s)
    worker_round (t ∷ q) s = after_send t q (worker_round q) (send_task t s)

    -- Each task goes once to the stream, in the order of the channel, or stays in the channel, in its
    -- order; and none stays if the round succeeds.
    abbrev pub Passes : List T → Round → Type 0
    Passes q (ok u, handed, left, s) = (handed ≡ q) × (left ≡ [])
    Passes q (err e, handed, left, s) = handed ++ left ≡ q

    round_flushed-Passes :
        (r : Result {0, 0} RpcIntErr Unit) (s : S) → Passes [] (round_flushed (r, s))
    round_flushed-Passes (ok u) s = (refl, refl)
    round_flushed-Passes (err e) s = refl

    Passes-cons :
        (t : T) (q : List T) (r : Result {0, 0} RpcIntErr Unit) (handed left : List T) (s : S)
        → Passes q (r, handed, left, s)
        → Passes (t ∷ q) (r, t ∷ handed, left, s)
    Passes-cons t q (ok u) handed left s p = (ap (λ x. t ∷ x) p.0, p.1)
    Passes-cons t q (err e) handed left s p = ap (λ x. t ∷ x) p

    after_send-Passes :
        (t : T) (q : List T) (next : S → Round) (r : Result {0, 0} RpcIntErr Unit) (s : S)
        → ((s' : S) → Passes q (next s'))
        → Passes (t ∷ q) (after_send t q next (r, s))
    after_send-Passes t q next (ok u) s h =
        Passes-cons t q (next s).0 (next s).1 (next s).2 (next s).3 (h s)
    after_send-Passes t q next (err e) s h = refl

    -- A round of a worker hands each task of the channel to its stream once and in order, up to the
    -- first that fails or the last; the others stay in the channel, in their order.
    pub worker_round-Passes : (q : List T) (s : S) → Passes q (worker_round q s)
    worker_round-Passes [] s = round_flushed-Passes (flush_req s).0 (flush_req s).1
    worker_round-Passes (t ∷ q) s =
        after_send-Passes t q (worker_round q) (send_task t s).0 (send_task t s).1
          (worker_round-Passes q)

    -- `run_worker`'s count of the connected workers, around what its rounds do; `Ordering` apart, both
    -- are `fetch_add`.
    abbrev pub counted_run : (Pool T → Pool T) → Pool T → Pool T
    counted_run run p =
        let q =
          run (record p { connected_worker_count = (p.connected_worker_count + 1) % 2 ^ 64 }) in
        record q { connected_worker_count = (q.connected_worker_count + 1) % 2 ^ 64 }
