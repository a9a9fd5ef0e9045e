-- ===== src/Server/Conn/Wire.antt =====
-- What the writer of a connection (stream/src/server/server.rs) puts on the wire.
use occams_rpc.Base.{
  ℕ, ◌≤◌, ◌≡◌, refl, Bool, true, false, Option, none, some, List, [], ◌∷◌, ◌++◌, length,
}
use occams_rpc.Base.Result.{Result, ok, err}
use occams_rpc.Error.{RpcIntErr}
use occams_rpc.Proto.{encode_resp, encode_internal, rpc_resp_header_len}
use occams_rpc.Proto.Layout.{ByteOrder}
use occams_rpc.Server.Conn.{
  Dispatch, Conn, listens, is_ping, sent_to, quick_to, dispatched, answered, reader_round,
  handler_returns,
}
use occams_rpc.Server.Task.{Answer}
use occams_rpc.Tcp.RequestTrip.{opt_bytes}
use occams_rpc.Tcp.Server.{RpcSvrReq}

module _ {T R : Type 0} (d : Dispatch T R) (le : ByteOrder) where
  -- The bytes of an answer.
  abbrev pub answer_bytes : List ℕ → Answer R → List ℕ
  answer_bytes mem (ok r) =
      let (buf, seq, blob) = encode_resp le mem (d.encode r) in buf ++ opt_bytes blob
  answer_bytes mem (err (seq, e)) = encode_internal le mem seq e

  -- These answers, the last one first, are these bytes one behind the other, each encoded into a buffer
  -- with room for the head.
  pub data Wire : List (Answer R) → List ℕ → Type 0 where
    nothing : Wire [] []
    behind :
        {sent : List (Answer R)} {b : List ℕ}
        → Wire sent b
        → (a : Answer R) (mem : List ℕ) → rpc_resp_header_len ≤ length mem
        → Wire (a ∷ sent) (b ++ answer_bytes mem a)

-- The writer's part of the state is as it was.
pub record KeepsWriter {S T R : Type 0} (c c' : Conn S T R) : Type 0 where
  pub same_writer : c'.writer ≡ c.writer
  pub same_out : c'.out ≡ c.out
  pub same_sent : c'.sent ≡ c.sent

module _ {S T R : Type 0} where
  pub sent_to-KeepsWriter :
      (b : Bool) (a : Answer R) (c : Conn S T R) → KeepsWriter c (sent_to b a c)
  sent_to-KeepsWriter true a c = record { same_writer = refl; same_out = refl; same_sent = refl }
  sent_to-KeepsWriter false a c = record { same_writer = refl; same_out = refl; same_sent = refl }

  quick_to-KeepsWriter :
      (b : Bool) (seq : ℕ) (e : Option RpcIntErr) (c : Conn S T R)
      → KeepsWriter c (quick_to b seq e c)
  quick_to-KeepsWriter true seq e c = record {
    same_writer = refl;
    same_out = refl;
    same_sent = refl;
  }
  quick_to-KeepsWriter false seq e c = record {
    same_writer = refl;
    same_out = refl;
    same_sent = refl;
  }

  dispatched-KeepsWriter :
      (seq : ℕ) (r : Result {0, 0} (Unit {0}) T) (c : Conn S T R)
      → KeepsWriter c (dispatched seq r c)
  dispatched-KeepsWriter seq (ok t) c = record {
    same_writer = refl;
    same_out = refl;
    same_sent = refl;
  }
  dispatched-KeepsWriter seq (err u) c =
      quick_to-KeepsWriter (listens c.writer) seq (some RpcIntErr.decode) c

  pub handler_returns-KeepsWriter :
      (seq : ℕ) (b : Bool) (c : Conn S T R) → KeepsWriter c (handler_returns seq b c)
  handler_returns-KeepsWriter seq true c = record {
    same_writer = refl;
    same_out = refl;
    same_sent = refl;
  }
  handler_returns-KeepsWriter seq false c =
      let k =
        quick_to-KeepsWriter (listens c.writer) seq (some RpcIntErr.decode)
          (record c { refused = seq ∷ c.refused }) in
      record { same_writer = k.same_writer; same_out = k.same_out; same_sent = k.same_sent }

  module _ (d : Dispatch T R) where
    answered-KeepsWriter :
        (b : Bool) (q : RpcSvrReq) (c : Conn S T R) → KeepsWriter c (answered d b q c)
    answered-KeepsWriter true q c = quick_to-KeepsWriter (listens c.writer) q.seq none c
    answered-KeepsWriter false q c = dispatched-KeepsWriter q.seq (d.decode_req q) c

    pub reader_round-KeepsWriter :
        (r : Result RpcIntErr (RpcSvrReq × List ℕ)) (c : Conn S T R)
        → KeepsWriter c (reader_round d r c)
    reader_round-KeepsWriter (ok (q, rest)) c =
        let k =
          answered-KeepsWriter (is_ping q) q (record c { input = rest; asked = q.seq ∷ c.asked }) in
        record { same_writer = k.same_writer; same_out = k.same_out; same_sent = k.same_sent }
    reader_round-KeepsWriter (err e) c = record {
      same_writer = refl;
      same_out = refl;
      same_sent = refl;
    }
