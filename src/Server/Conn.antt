-- ===== src/Server/Conn.antt =====
-- stream/src/server/server.rs: `RpcServer::server_conn`, one connection of a server with its reader
-- and its writer, any number of dispatched tasks between them, and the channel of answers. Any order of
-- their steps is a run. `asked`, `refused`, `dropped`, `sent` and `lost` are a log that no step reads.
pub mod Ledger
pub mod Settled
pub mod Close
pub mod Drain
pub mod Wire
pub mod Written
pub mod Served
use occams_rpc.Base.{
  ℕ, ◌≤◌, ◌≡◌, Bool, true, false, Option, none, some, List, [], ◌∷◌, ◌++◌, length, ◌==◌,
}
use occams_rpc.Base.Int.{pos, negsuc}
use occams_rpc.Base.Result.{Result, ok, err}
use occams_rpc.Error.{RpcIntErr}
use occams_rpc.Io.{Sink}
use occams_rpc.Io.Write.{Done, Buffered, flush}
use occams_rpc.Proto.{RpcAction, str, num_action, ServerTaskEncode, rpc_resp_header_len}
use occams_rpc.Proto.Layout.{ByteOrder}
use occams_rpc.Server.Task.{Answer}
use occams_rpc.Tcp.Server.{RpcSvrReq, read_req}
use occams_rpc.Tcp.Write.{write_resp, write_resp_internal, close_conn}

-- What a connection asks of the `Dispatch` of its server and of the tasks: T is a decoded task, R a
-- task that is done. A decoded task keeps the number of its request.
pub record Dispatch (T R : Type 0) : Type 0 where
  pub decode_req : RpcSvrReq → Result {0, 0} (Unit {0}) T
  pub task_seq : T → ℕ
  pub resp_seq : R → ℕ
  pub encode : R → ServerTaskEncode
  pub decode_req-seq : (q : RpcSvrReq) (t : T) → decode_req q ≡ ok t → task_seq t ≡ q.seq

-- Where the reader stands: before `read_req`, in `dispatch_req` of a request, or at its end.
pub data Reader : Type 0 where
  reading : Reader
  handling : ℕ → Reader
  stopped : Reader

-- Where the writer stands: in `recv`, before `try_recv`, in `process!` of an answer, in `flush_resp`,
-- behind `close_conn`, or at an error.
pub data Writer (R : Type 0) : Type 0 where
  receiving : Writer R
  draining : Writer R
  writing : Answer R → Writer R
  flushing : Writer R
  closed : Writer R
  failed : Writer R

pub record Conn (S T R : Type 0) : Type 0 where
  pub input : List ℕ
  pub reader : Reader
  pub held : List T
  pub queue : List (Answer R)
  pub writer : Writer R
  pub out : Buffered S
  pub asked : List ℕ
  pub refused : List ℕ
  pub dropped : List ℕ
  pub sent : List (Answer R)
  pub lost : List (Answer R)

-- The receiver of the channel lives as long as the writer runs.
abbrev pub listens : {R : Type 0} → Writer R → Bool
listens receiving = true
listens draining = true
listens (writing a) = true
listens flushing = true
listens closed = false
listens failed = false

-- `recv` and `try_recv` take an answer.
abbrev pub takes : {R : Type 0} → Writer R → Bool
takes receiving = true
takes draining = true
takes w = false

-- What `send_quick_resp` returns means this for the reader.
abbrev pub after_quick : Bool → Reader
after_quick true = reading
after_quick false = stopped

-- The test for a ping: the action 0 with an empty message.
abbrev pub ping_like : RpcAction → List ℕ → Bool
ping_like (num_action (pos n)) [] = n == 0
ping_like (num_action (pos n)) (x ∷ m) = false
ping_like (num_action (negsuc n)) m = false
ping_like (str s) m = false

abbrev pub is_ping : RpcSvrReq → Bool
is_ping q = ping_like q.action q.msg

module _ {S T R : Type 0} where
  -- `RespNoti`: `done` and `send_err` put the answer into the channel, or lose it when the writer is
  -- gone.
  abbrev pub sent_to : Bool → Answer R → Conn S T R → Conn S T R
  sent_to true a c = record c { queue = c.queue ++ (a ∷ []) }
  sent_to false a c = record c { lost = a ∷ c.lost }

  abbrev pub send_answer : Answer R → Conn S T R → Conn S T R
  send_answer a c = sent_to (listens c.writer) a c

  -- `send_quick_resp`: its error ends the reader.
  abbrev pub quick_to : Bool → ℕ → Option RpcIntErr → Conn S T R → Conn S T R
  quick_to alive seq e c = record (sent_to alive (err (seq, e)) c) { reader = after_quick alive }

  abbrev pub send_quick_resp : ℕ → Option RpcIntErr → Conn S T R → Conn S T R
  send_quick_resp seq e c = quick_to (listens c.writer) seq e c

  -- `dispatch_req` up to the handler: the decoded task, or the answer Decode.
  abbrev pub dispatched : ℕ → Result {0, 0} (Unit {0}) T → Conn S T R → Conn S T R
  dispatched seq (ok t) c = record c { reader = handling seq; held = t ∷ c.held }
  dispatched seq (err u) c = send_quick_resp seq (some RpcIntErr.decode) c

  -- One round of `Reader::run`, on the request that was read.
  abbrev pub answered : Dispatch T R → Bool → RpcSvrReq → Conn S T R → Conn S T R
  answered d true q c = send_quick_resp q.seq none c
  answered d false q c = dispatched q.seq (d.decode_req q) c

  abbrev pub reader_round :
      Dispatch T R → Result RpcIntErr (RpcSvrReq × List ℕ) → Conn S T R → Conn S T R
  reader_round d (ok (q, rest)) c =
      answered d (is_ping q) q (record c { input = rest; asked = q.seq ∷ c.asked })
  reader_round d (err e) c = record c { reader = stopped }

  -- What the handler of `DispatchClosure` returns; an error is answered by Decode.
  abbrev pub handler_returns : ℕ → Bool → Conn S T R → Conn S T R
  handler_returns seq true c = record c { reader = reading }
  handler_returns seq false c =
      send_quick_resp seq (some RpcIntErr.decode) (record c { refused = seq ∷ c.refused })

  -- An error ends the writer, and what waits in the channel is lost.
  abbrev pub fails : Buffered S → List (Answer R) → Conn S T R → Conn S T R
  fails w lost c = record c { queue = []; writer = failed; out = w; lost = lost ++ c.lost }

  -- The end of `process!`
  abbrev pub processed : Answer R → Done × Buffered S → Conn S T R → Conn S T R
  processed a (ok u, w) c = record c { writer = draining; out = w; sent = a ∷ c.sent }
  processed a (err e, w) c = fails w (a ∷ c.queue) c

  -- The end of `flush_resp`
  abbrev pub flushed : Done × Buffered S → Conn S T R → Conn S T R
  flushed (ok u, w) c = record c { writer = receiving; out = w }
  flushed (err e, w) c = fails w c.queue c

  module _ (d : Dispatch T R) (snk : Sink S) (fuel : ℕ) (le : ByteOrder) where
    -- `process!`
    abbrev pub process : List ℕ → Answer R → Buffered S → Done × Buffered S
    process mem (ok r) w = write_resp snk fuel le mem (d.encode r) w
    process mem (err (seq, e)) w = write_resp_internal snk fuel le mem seq e w

    module _ (alloc : ℕ → Bool) (shutdown_write : S → S) where
      pub data Step (c : Conn S T R) : Conn S T R → Type 0 where
        -- The reader, at one request or at the error that ends it.
        read :
            (cancelled : Bool)
            → c.reader ≡ reading
            → Step c (reader_round d (read_req alloc le cancelled c.input) c)
        returns :
            (seq : ℕ) (succeeds : Bool)
            → c.reader ≡ handling seq
            → Step c (handler_returns seq succeeds c)
        -- A task is done somewhere, with the number of its request, or is dropped without an answer.
        done :
            (xs ys : List T) (t : T) (r : R)
            → c.held ≡ xs ++ (t ∷ ys)
            → d.resp_seq r ≡ d.task_seq t
            → Step c (send_answer (ok r) (record c { held = xs ++ ys }))
        drop :
            (xs ys : List T) (t : T)
            → c.held ≡ xs ++ (t ∷ ys)
            → Step c (record c { held = xs ++ ys; dropped = d.task_seq t ∷ c.dropped })
        -- The writer: `recv` or `try_recv` of the next answer, and its `process!`, before which the
        -- encoding buffer holds anything.
        next :
            (a : Answer R) (q : List (Answer R))
            → takes c.writer ≡ true
            → c.queue ≡ a ∷ q
            → Step c (record c { writer = writing a; queue = q })
        writes :
            (mem : List ℕ) (a : Answer R)
            → c.writer ≡ writing a
            → rpc_resp_header_len ≤ length mem
            → Step c (processed a (process mem a c.out) c)
        -- `try_recv` finds nothing, and the answers are flushed.
        drained : c.writer ≡ draining → c.queue ≡ [] → Step c (record c { writer = flushing })
        flushes : c.writer ≡ flushing → Step c (flushed (flush snk fuel c.out) c)
        -- `recv` fails when no sender is left: the reader has ended, and no task is held.
        closes :
            c.writer ≡ receiving
            → c.queue ≡ []
            → c.reader ≡ stopped
            → c.held ≡ []
            → Step c (record c { writer = closed; out = close_conn snk fuel shutdown_write c.out })

      pub data Reach (c : Conn S T R) : Conn S T R → Type 0 where
        start : Reach c c
        later : {u v : Conn S T R} → Reach c u → Step u v → Reach c v

-- `server_conn`: a connection with nothing behind it.
abbrev pub server_conn : {S T R : Type 0} → List ℕ → Buffered S → Conn S T R
server_conn input out = record {
  input = input;
  reader = reading;
  held = [];
  queue = [];
  writer = receiving;
  out = out;
  asked = [];
  refused = [];
  dropped = [];
  sent = [];
  lost = [];
}
