-- ===== src/Server/Conn/Ledger.antt =====
-- How the requests and the answers of a connection (stream/src/server/server.rs) add up.
use occams_rpc.Base.{
  ℕ, ◌+◌, ◌≡◌, refl, ap, Bool, true, false, Option, none, some, List, [], ◌∷◌, ◌++◌, arith, once,
  count_by, count_by-append,
}
use occams_rpc.Base.Result.{Result, ok, err}
use occams_rpc.Error.{RpcIntErr}
use occams_rpc.Io.{Sink}
use occams_rpc.Io.Write.{Done, Buffered, flush}
use occams_rpc.Proto.Layout.{ByteOrder}
use occams_rpc.Server.Conn.{
  Dispatch, Writer, receiving, draining, writing, flushing, closed, failed, Conn, listens, takes,
  is_ping, sent_to, send_answer, dispatched, quick_to, answered, reader_round, handler_returns,
  fails, processed, flushed, process, Step, read, returns, done, drop, next, writes, drained,
  flushes, closes, Reach, start, later, server_conn,
}
use occams_rpc.Server.Task.{Answer}
use occams_rpc.Tcp.Server.{RpcSvrReq, read_req}

-- How often a number occurs.
abbrev pub tally : ℕ → List ℕ → ℕ
tally n xs = count_by (λ x. x) n xs

module _ {T R : Type 0} (d : Dispatch T R) where
  -- The number that an answer goes back with.
  abbrev pub answer_seq : Answer R → ℕ
  answer_seq (ok r) = d.resp_seq r
  answer_seq (err (seq, e)) = seq

  abbrev pub answers : ℕ → List (Answer R) → ℕ
  answers n q = count_by answer_seq n q

  abbrev pub tasks : ℕ → List T → ℕ
  tasks n ts = count_by d.task_seq n ts

  abbrev pub in_hand : ℕ → Writer R → ℕ
  in_hand n (writing a) = once n (answer_seq a)
  in_hand n receiving = 0
  in_hand n draining = 0
  in_hand n flushing = 0
  in_hand n closed = 0
  in_hand n failed = 0

  tasks-held :
      (n : ℕ) (c xs ys : List T) (t : T)
      → c ≡ xs ++ (t ∷ ys)
      → tasks n c ≡ once n (d.task_seq t) + tasks n (xs ++ ys)
  tasks-held n c xs ys t e =
      rw e (
        omega (arith, count_by-append d.task_seq n xs (t ∷ ys), count_by-append d.task_seq n xs ys))

  in_hand-takes : (n : ℕ) (w : Writer R) → takes w ≡ true → in_hand n w ≡ 0
  in_hand-takes n (writing a) e = ground arith
  in_hand-takes n receiving e = refl
  in_hand-takes n draining e = refl
  in_hand-takes n flushing e = refl
  in_hand-takes n closed e = refl
  in_hand-takes n failed e = refl

module _ {S T R : Type 0} (d : Dispatch T R) where
  -- The requests with this number, and the answers that a failing handler adds, are each in one place:
  -- with a task, in the channel, in the hand of the writer, sent, lost to a writer that failed, or
  -- dropped with a task.
  abbrev pub Balances : ℕ → Conn S T R → Type 0
  Balances n c =
      tally n c.asked + tally n c.refused
      ≡ tasks d n c.held
        + answers d n c.queue
        + in_hand d n c.writer
        + answers d n c.sent
        + answers d n c.lost
        + tally n c.dropped

  -- Before an answer with this number is sent, it is owed.
  abbrev Owes : ℕ → ℕ → Conn S T R → Type 0
  Owes n seq c =
      tally n c.asked + tally n c.refused
      ≡ once n seq
        + tasks d n c.held
        + answers d n c.queue
        + in_hand d n c.writer
        + answers d n c.sent
        + answers d n c.lost
        + tally n c.dropped

  sent_to-Balances :
      (n : ℕ) (b : Bool) (a : Answer R) (c : Conn S T R)
      → Owes n (answer_seq d a) c
      → Balances n (sent_to b a c)
  sent_to-Balances n true a c h = omega (arith, count_by-append (answer_seq d) n c.queue (a ∷ []))
  sent_to-Balances n false a c h = omega arith

  quick_to-Balances :
      (n : ℕ) (b : Bool) (seq : ℕ) (e : Option RpcIntErr) (c : Conn S T R)
      → Owes n seq c
      → Balances n (quick_to b seq e c)
  quick_to-Balances n true seq e c h =
      omega (arith, count_by-append (answer_seq d) n c.queue (err (seq, e) ∷ []))
  quick_to-Balances n false seq e c h = omega arith

  dispatched-Balances :
      (n seq : ℕ) (r : Result {0, 0} (Unit {0}) T) (c : Conn S T R)
      → ((t : T) → r ≡ ok t → d.task_seq t ≡ seq)
      → Owes n seq c
      → Balances n (dispatched seq r c)
  dispatched-Balances n seq (ok t) c e h = ground (arith, e t refl)
  dispatched-Balances n seq (err u) c e h =
      quick_to-Balances n (listens c.writer) seq (some RpcIntErr.decode) c h

  answered-Balances :
      (n : ℕ) (b : Bool) (q : RpcSvrReq) (c : Conn S T R)
      → Owes n q.seq c
      → Balances n (answered d b q c)
  answered-Balances n true q c h = quick_to-Balances n (listens c.writer) q.seq none c h
  answered-Balances n false q c h =
      dispatched-Balances n q.seq (d.decode_req q) c (d.decode_req-seq q) h

  reader_round-Balances :
      (n : ℕ) (r : Result RpcIntErr (RpcSvrReq × List ℕ)) (c : Conn S T R)
      → Balances n c
      → Balances n (reader_round d r c)
  reader_round-Balances n (ok (q, rest)) c h =
      answered-Balances n (is_ping q) q (record c { input = rest; asked = q.seq ∷ c.asked })
        (omega arith)
  reader_round-Balances n (err e) c h = h

  handler_returns-Balances :
      (n seq : ℕ) (b : Bool) (c : Conn S T R) → Balances n c → Balances n (handler_returns seq b c)
  handler_returns-Balances n seq true c h = h
  handler_returns-Balances n seq false c h =
      quick_to-Balances n (listens c.writer) seq (some RpcIntErr.decode)
        (record c { refused = seq ∷ c.refused }) (omega arith)

  done-Balances :
      (n : ℕ) (xs ys : List T) (t : T) (r : R) (c : Conn S T R)
      → c.held ≡ xs ++ (t ∷ ys)
      → d.resp_seq r ≡ d.task_seq t
      → Balances n c
      → Balances n (send_answer (ok r) (record c { held = xs ++ ys }))
  done-Balances n xs ys t r c e s h =
      sent_to-Balances n (listens c.writer) (ok r) (record c { held = xs ++ ys })
        (rw s (omega (arith, tasks-held d n c.held xs ys t e)))

  drop-Balances :
      (n : ℕ) (xs ys : List T) (t : T) (c : Conn S T R)
      → c.held ≡ xs ++ (t ∷ ys)
      → Balances n c
      → Balances n (record c { held = xs ++ ys; dropped = d.task_seq t ∷ c.dropped })
  drop-Balances n xs ys t c e h = omega (arith, tasks-held d n c.held xs ys t e)

  next-Balances :
      (n : ℕ) (a : Answer R) (q : List (Answer R)) (c : Conn S T R)
      → takes c.writer ≡ true
      → c.queue ≡ a ∷ q
      → Balances n c
      → Balances n (record c { writer = writing a; queue = q })
  next-Balances n a q c t e h = omega (arith, in_hand-takes d n c.writer t, ap (answers d n) e)

  fails-Balances :
      (n : ℕ) (w : Buffered S) (l : List (Answer R)) (c : Conn S T R)
      → answers d n l ≡ answers d n c.queue + in_hand d n c.writer
      → Balances n c
      → Balances n (fails w l c)
  fails-Balances n w l c e h = omega (arith, count_by-append (answer_seq d) n l c.lost)

  processed-Balances :
      (n : ℕ) (a : Answer R) (r : Done × Buffered S) (c : Conn S T R)
      → c.writer ≡ writing a
      → Balances n c
      → Balances n (processed a r c)
  processed-Balances n a (ok u, w) c e h = omega (arith, ap (in_hand d n) e)
  processed-Balances n a (err x, w) c e h =
      fails-Balances n w (a ∷ c.queue) c (omega (arith, ap (in_hand d n) e)) h

  flushed-Balances :
      (n : ℕ) (r : Done × Buffered S) (c : Conn S T R)
      → c.writer ≡ flushing
      → Balances n c
      → Balances n (flushed r c)
  flushed-Balances n (ok u, w) c e h = omega (arith, ap (in_hand d n) e)
  flushed-Balances n (err x, w) c e h =
      fails-Balances n w c.queue c (omega (arith, ap (in_hand d n) e)) h

module _ {S T R : Type 0} (d : Dispatch T R) (snk : Sink S) (fuel : ℕ) (le : ByteOrder)
    (alloc : ℕ → Bool) (shutdown_write : S → S) where
  Step-Balances :
      {c c' : Conn S T R}
      → (n : ℕ) → Step d snk fuel le alloc shutdown_write c c'
      → Balances d n c
      → Balances d n c'
  Step-Balances {c} n (read cancelled r) h =
      reader_round-Balances d n (read_req alloc le cancelled c.input) c h
  Step-Balances {c} n (returns seq b r) h = handler_returns-Balances d n seq b c h
  Step-Balances {c} n (done xs ys t r e s) h = done-Balances d n xs ys t r c e s h
  Step-Balances {c} n (drop xs ys t e) h = drop-Balances d n xs ys t c e h
  Step-Balances {c} n (next a q t e) h = next-Balances d n a q c t e h
  Step-Balances {c} n (writes mem a e r) h =
      processed-Balances d n a (process d snk fuel le mem a c.out) c e h
  Step-Balances {c} n (drained e q) h = omega (arith, ap (in_hand d n) e)
  Step-Balances {c} n (flushes e) h = flushed-Balances d n (flush snk fuel c.out) c e h
  Step-Balances {c} n (closes e q r t) h = omega (arith, ap (in_hand d n) e)

  -- In every state that a new connection can come to, each request it has read, and each answer that a
  -- failing handler has added, is in exactly one place: with a task, in the channel, in the hand of the
  -- writer, written, lost to a writer that failed, or dropped with a task that nobody answered.
  pub Reach-Balances :
      (input : List ℕ) (out : Buffered S) {c : Conn S T R}
      → Reach d snk fuel le alloc shutdown_write (server_conn input out) c
      → (n : ℕ) → Balances d n c
  Reach-Balances input out start n = refl
  Reach-Balances input out (later r s) n = Step-Balances n s (Reach-Balances input out r n)
