-- ===== src/Server/Conn/Close.antt =====
-- What holds when the writer of a connection (stream/src/server/server.rs) has closed it.
use occams_rpc.Base.{
  ℕ, ◌+◌, ◌≡◌, refl, ap, Bool, true, false, none, some, List, [], ◌∷◌, ◌++◌, arith,
}
use occams_rpc.Base.Result.{Result, ok, err}
use occams_rpc.Error.{RpcIntErr}
use occams_rpc.Io.{Sink}
use occams_rpc.Io.Write.{Done, Buffered, flush}
use occams_rpc.Proto.Layout.{ByteOrder}
use occams_rpc.Server.Conn.{
  Dispatch, reading, handling, stopped, receiving, draining, writing, flushing, closed, Conn,
  listens, is_ping, dispatched, answered, reader_round, handler_returns, processed, flushed,
  process, Step, read, returns, done, drop, next, writes, drained, flushes, closes, Reach, start,
  later, server_conn,
}
use occams_rpc.Server.Conn.Ledger.{tally, answers, tasks, in_hand, Reach-Balances}
use occams_rpc.Server.Task.{Answer}
use occams_rpc.Tcp.Server.{RpcSvrReq, read_req}
use occams_rpc.Server.Conn.Settled.{
  takes-listens, IsSettled, sent_to-IsSettled, moved-IsSettled, quick_to-IsSettled, runs-IsSettled,
  fails-IsSettled, reading-open, handling-open, held-open, taken-IsSettled,
}

module _ {S T R : Type 0} (d : Dispatch T R) where
  dispatched-IsSettled :
      (seq : ℕ) (r : Result {0, 0} (Unit {0}) T) (c : Conn S T R)
      → ¬ (c.writer ≡ closed)
      → IsSettled c
      → IsSettled (dispatched seq r c)
  dispatched-IsSettled seq (ok t) c n h =
      taken-IsSettled (t ∷ c.held) c.asked c.dropped c.refused c.input (handling seq) c n h
  dispatched-IsSettled seq (err u) c n h =
      quick_to-IsSettled (listens c.writer) seq (some RpcIntErr.decode) c refl n h

  answered-IsSettled :
      (b : Bool) (q : RpcSvrReq) (c : Conn S T R)
      → ¬ (c.writer ≡ closed)
      → IsSettled c
      → IsSettled (answered d b q c)
  answered-IsSettled true q c n h = quick_to-IsSettled (listens c.writer) q.seq none c refl n h
  answered-IsSettled false q c n h = dispatched-IsSettled q.seq (d.decode_req q) c n h

  reader_round-IsSettled :
      (r : Result RpcIntErr (RpcSvrReq × List ℕ)) (c : Conn S T R)
      → ¬ (c.writer ≡ closed)
      → IsSettled c
      → IsSettled (reader_round d r c)
  reader_round-IsSettled (ok (q, rest)) c n h =
      answered-IsSettled (is_ping q) q (record c { input = rest; asked = q.seq ∷ c.asked }) n
        (taken-IsSettled c.held (q.seq ∷ c.asked) c.dropped c.refused rest c.reader c n h)
  reader_round-IsSettled (err e) c n h = moved-IsSettled stopped c n h

  handler_returns-IsSettled :
      (seq : ℕ) (b : Bool) (c : Conn S T R)
      → ¬ (c.writer ≡ closed)
      → IsSettled c
      → IsSettled (handler_returns seq b c)
  handler_returns-IsSettled seq true c n h = moved-IsSettled reading c n h
  handler_returns-IsSettled seq false c n h =
      quick_to-IsSettled (listens c.writer) seq (some RpcIntErr.decode)
        (record c { refused = seq ∷ c.refused }) refl n
        (taken-IsSettled c.held c.asked c.dropped (seq ∷ c.refused) c.input c.reader c n h)

  processed-IsSettled :
      (a : Answer R) (r : Done × Buffered S) (c : Conn S T R)
      → listens c.writer ≡ true
      → IsSettled c
      → IsSettled (processed a r c)
  processed-IsSettled a (ok u, w) c l h =
      runs-IsSettled draining c.queue w (a ∷ c.sent) c l (λ x. ground arith) h
  processed-IsSettled a (err e, w) c l h = fails-IsSettled w (a ∷ c.queue) c

  flushed-IsSettled :
      (r : Done × Buffered S) (c : Conn S T R)
      → listens c.writer ≡ true
      → IsSettled c
      → IsSettled (flushed r c)
  flushed-IsSettled (ok u, w) c l h =
      runs-IsSettled receiving c.queue w c.sent c l (λ x. ground arith) h
  flushed-IsSettled (err e, w) c l h = fails-IsSettled w c.queue c

module _ {S T R : Type 0} (d : Dispatch T R) (snk : Sink S) (fuel : ℕ) (le : ByteOrder)
    (alloc : ℕ → Bool) (shutdown_write : S → S) where
  Step-IsSettled :
      {c c' : Conn S T R}
      → Step d snk fuel le alloc shutdown_write c c'
      → IsSettled c
      → IsSettled c'
  Step-IsSettled {c} (read cancelled r) h =
      reader_round-IsSettled d (read_req alloc le cancelled c.input) c (reading-open c r h) h
  Step-IsSettled {c} (returns seq b r) h =
      handler_returns-IsSettled d seq b c (handling-open seq c r h) h
  Step-IsSettled {c} (done xs ys t r e s) h =
      let n = held-open xs ys t c e h in
      sent_to-IsSettled (listens c.writer) (ok r) (record c { held = xs ++ ys }) refl n
        (taken-IsSettled (xs ++ ys) c.asked c.dropped c.refused c.input c.reader c n h)
  Step-IsSettled {c} (drop xs ys t e) h =
      taken-IsSettled (xs ++ ys) c.asked (d.task_seq t ∷ c.dropped) c.refused c.input c.reader c
        (held-open xs ys t c e h) h
  Step-IsSettled {c} (next a q t e) h =
      runs-IsSettled (writing a) q c.out c.sent c (takes-listens c.writer t) (λ x. ground arith) h
  Step-IsSettled {c} (writes mem a e r) h =
      processed-IsSettled d a (process d snk fuel le mem a c.out) c (ap listens e) h
  Step-IsSettled {c} (drained e q) h =
      runs-IsSettled flushing c.queue c.out c.sent c (ap listens e) (λ x. ground arith) h
  Step-IsSettled {c} (flushes e) h = flushed-IsSettled d (flush snk fuel c.out) c (ap listens e) h
  Step-IsSettled {c} (closes e q r t) h = record {
    open_lost = λ x. ground arith;
    closed_reader = λ x. r;
    closed_held = λ x. t;
    closed_queue = λ x. q;
    closed_lost = λ x. h.open_lost (ap listens e);
  }

  pub Reach-IsSettled :
      (input : List ℕ) (out : Buffered S) {c : Conn S T R}
      → Reach d snk fuel le alloc shutdown_write (server_conn input out) c
      → IsSettled c
  Reach-IsSettled input out start = record {
    open_lost = λ x. refl;
    closed_reader = λ x. ground arith;
    closed_held = λ x. refl;
    closed_queue = λ x. refl;
    closed_lost = λ x. refl;
  }
  Reach-IsSettled input out (later r s) = Step-IsSettled s (Reach-IsSettled input out r)

  -- When the writer has closed the connection, every request that was read has been answered in writing
  -- exactly once, but for those whose task was dropped without an answer, and those that a failing
  -- handler has answered once more; the reader has ended, and no task is held.
  pub closed_answers :
      (input : List ℕ) (out : Buffered S) {c : Conn S T R}
      → Reach d snk fuel le alloc shutdown_write (server_conn input out) c
      → c.writer ≡ closed
      → (c.reader ≡ stopped)
        × (c.held ≡ [])
        × ((n : ℕ) → tally n c.asked + tally n c.refused ≡ answers d n c.sent + tally n c.dropped)
  closed_answers input out {c} r e =
      let h = Reach-IsSettled input out r in
      (
        h.closed_reader e,
        h.closed_held e,
        λ n.
            let b = Reach-Balances d snk fuel le alloc shutdown_write input out r n in
            omega (
              arith,
              b,
              ap (in_hand d n) e,
              ap (tasks d n) (h.closed_held e),
              ap (answers d n) (h.closed_queue e),
              ap (answers d n) (h.closed_lost e),
            ),
      )
