-- ===== src/Tcp/Write/Delivery.antt =====
-- What the writing side of transport/tcp/src hands to the connection, and what the other end reads of
-- it.
use occams_rpc.Base.{
  ℕ, ◌≤◌, ◌≡◌, sym, ap, ◌∙◌, Bool, true, false, Option, none, some, List, [], ◌++◌, append-nil,
  length,
}
use occams_rpc.Base.Int.{IsU64}
use occams_rpc.Base.Result.{ok, err}
use occams_rpc.Error.{RpcIntErr}
use occams_rpc.Io.{Sink}
use occams_rpc.Io.Write.{Done, Buffered, write_all, flush, content_buffered}
use occams_rpc.Io.Write.Loops.{Wrote, Wrote-behind, write_all_lem}
use occams_rpc.Io.Write.Front.{buffered_sink, ValidBuffered, Flushed, flush_lem}
use occams_rpc.Proto.{
  ClientTask, ServerTaskEncode, encode_resp, encode_req, encode_internal, rpc_req_header_len,
}
use occams_rpc.Proto.Layout.{ByteOrder}
use occams_rpc.Proto.Request.{Writes, InLimits}
use occams_rpc.Tcp.Server.{read_req}
use occams_rpc.Tcp.RequestTrip.{IsAction, Allocates, nonempty, opt_bytes, read_req-encode_req}
use occams_rpc.Tcp.Write.{
  write_blob, write_both, flush_if, write_req, write_resp, write_resp_internal,
}

module _ {S : Type 0} (snk : Sink S) (fuel : ℕ) where
  open snk use {content}

  -- The bytes are accepted behind all that was, and with a flush the writer has them all.
  abbrev pub Delivers : List ℕ → Bool → Buffered S → Done × Buffered S → Type 0
  Delivers b need_flush w (err e, w') = ValidBuffered snk fuel w'
  Delivers b true w (ok u, w') =
      (content w'.inner ≡ content_buffered snk fuel w ++ b)
      × (w'.front.pos ≡ 0)
      × ValidBuffered snk fuel w'
  Delivers b false w (ok u, w') =
      (content_buffered snk fuel w' ≡ content_buffered snk fuel w ++ b) × ValidBuffered snk fuel w'

  -- As before, without a flush.
  abbrev Accepted : List ℕ → Buffered S → Done × Buffered S → Type 0
  Accepted b w out = Wrote (buffered_sink snk fuel) b w out

  write_blob-Accepted :
      (buf : List ℕ) (blob : Option (List ℕ)) (w : Buffered S) (d : Done) (w' : Buffered S)
      → Accepted buf w (d, w')
      → Accepted (buf ++ opt_bytes blob) w (write_blob snk fuel blob (d, w'))
  unfolding buffered_sink
  write_blob-Accepted buf blob w (err e) w' a = a
  write_blob-Accepted buf none w (ok u) w' a =
      (a.0 ∙ ap (λ x. content_buffered snk fuel w ++ x) (sym (append-nil buf)), a.1)
  write_blob-Accepted buf (some b) w (ok u) w' a =
      Wrote-behind (buffered_sink snk fuel) buf b w w'
        (write_all (buffered_sink snk fuel) fuel b w') a.0
        (write_all_lem (buffered_sink snk fuel) fuel b w' a.1)

  flush_if-Delivers :
      (b : List ℕ) (need_flush : Bool) (w : Buffered S) (d : Done) (w' : Buffered S)
      → Accepted b w (d, w')
      → Delivers b need_flush w (flush_if snk fuel need_flush (d, w'))
  unfolding buffered_sink
  flush_if-Delivers b need_flush w (err e) w' a = a
  flush_if-Delivers b false w (ok u) w' a = a
  flush_if-Delivers b true w (ok u) w' a =
      flushed-Delivers (flush snk fuel w').0 (flush snk fuel w').1 (flush_lem snk fuel w' a.1)
    where
      flushed-Delivers :
          (e : Done) (v : Buffered S) → Flushed snk fuel w' (e, v) → Delivers b true w (e, v)
      flushed-Delivers (err e) v f = f.1
      flushed-Delivers (ok t) v f = (f.0 ∙ a.0, f.1, f.3)

  write_both-Accepted :
      (buf : List ℕ) (blob : Option (List ℕ)) (w : Buffered S)
      → ValidBuffered snk fuel w
      → Accepted (buf ++ opt_bytes blob) w (write_both snk fuel buf blob w)
  unfolding buffered_sink
  write_both-Accepted buf blob w v =
      write_blob-Accepted buf blob w (write_all (buffered_sink snk fuel) fuel buf w).0
        (write_all (buffered_sink snk fuel) fuel buf w).1
        (write_all_lem (buffered_sink snk fuel) fuel buf w v)

  -- A request that is written without an error stands, buffer and blob whole and in this order, behind
  -- all that was accepted before; with a flush the connection itself has every byte, and nothing waits
  -- any more. Either way the writer stays in order.
  pub write_req_lem :
      (buf : List ℕ) (blob : Option (List ℕ)) (need_flush : Bool) (w : Buffered S)
      → ValidBuffered snk fuel w
      → Delivers (buf ++ opt_bytes blob) need_flush w (write_req snk fuel buf blob need_flush w)
  unfolding write_req
  write_req_lem buf blob need_flush w v =
      flush_if-Delivers (buf ++ opt_bytes blob) need_flush w (write_both snk fuel buf blob w).0
        (write_both snk fuel buf blob w).1 (write_both-Accepted buf blob w v)

  unflushed-Delivers :
      (b : List ℕ) (w : Buffered S) (d : Done) (w' : Buffered S)
      → Accepted b w (d, w')
      → Delivers b false w (d, w')
  unfolding buffered_sink
  unflushed-Delivers b w (err e) w' a = a
  unflushed-Delivers b w (ok u) w' a = a

  -- A response that is written without an error stands, buffer and blob whole and in this order, behind
  -- all that was accepted before; either way the writer stays in order.
  pub write_resp_lem :
      (le : ByteOrder) (mem : List ℕ) (task : ServerTaskEncode) (w : Buffered S)
      → ValidBuffered snk fuel w
      → let (buf, seq, blob) = encode_resp le mem task in
        Delivers (buf ++ opt_bytes blob) false w (write_resp snk fuel le mem task w)
  unfolding write_resp
  write_resp_lem le mem task w v =
      unflushed-Delivers ((encode_resp le mem task).0 ++ opt_bytes (encode_resp le mem task).2) w
        (write_both snk fuel (encode_resp le mem task).0 (encode_resp le mem task).2 w).0
        (write_both snk fuel (encode_resp le mem task).0 (encode_resp le mem task).2 w).1
        (write_both-Accepted (encode_resp le mem task).0 (encode_resp le mem task).2 w v)

  -- An answer of the framework itself, as before.
  pub write_resp_internal_lem :
      (le : ByteOrder) (mem : List ℕ) (seq : ℕ) (e : Option RpcIntErr) (w : Buffered S)
      → ValidBuffered snk fuel w
      → Delivers
          (encode_internal le mem seq e)
          false
          w
          (write_resp_internal snk fuel le mem seq e w)
  unfolding write_resp_internal buffered_sink
  write_resp_internal_lem le mem seq e w v =
      let b = encode_internal le mem seq e in
      unflushed-Delivers b w (write_all (buffered_sink snk fuel) fuel b w).0
        (write_all (buffered_sink snk fuel) fuel b w).1
        (write_all_lem (buffered_sink snk fuel) fuel b w v)

  module _ (le : ByteOrder) (alloc : ℕ → Bool) (cancelled : Bool) (mem : List ℕ) (client_id : ℕ)
      (task : ClientTask) (msg : List ℕ) where
    -- The other end of the connection reads the task from what the writer has.
    abbrev pub Arrives : Done × Buffered S → Type 0
    Arrives (err e, w) = ValidBuffered snk fuel w
    Arrives (ok u, w) =
        read_req alloc le cancelled (content w.inner)
        ≡ ok (
          record {
            seq = task.seq;
            action = task.get_action;
            msg = msg;
            blob = nonempty task.req_blob;
          },
          [],
        )

    Delivers-Arrives :
        (b : List ℕ) (w : Buffered S) (d : Done) (w' : Buffered S)
        → content_buffered snk fuel w ≡ []
        → read_req alloc le cancelled b
          ≡ ok (
            record {
              seq = task.seq;
              action = task.get_action;
              msg = msg;
              blob = nonempty task.req_blob;
            },
            [],
          )
        → Delivers b true w (d, w')
        → Arrives (d, w')
    Delivers-Arrives b w (err e) w' z r x = x
    Delivers-Arrives b w (ok u) w' z r x =
        ap (read_req alloc le cancelled) (x.0 ∙ ap (λ y. y ++ b) z) ∙ r

    -- From end to end: a request within the limits that the client encodes and writes with a flush on a
    -- fresh connection, if no write fails, is what the server reads from the connection, and nothing is
    -- left over. The conditions are those of encoding and reading the request, and a writer in order.
    pub write_req-read_req :
        (w : Buffered S)
        → ValidBuffered snk fuel w
        → content_buffered snk fuel w ≡ []
        → rpc_req_header_len ≤ length mem
        → IsU64 client_id
        → IsU64 task.seq
        → IsAction task.get_action
        → Writes task msg
        → InLimits task msg
        → Allocates alloc task.req_blob
        → Arrives (write_req snk fuel (encode_req le mem client_id task).0 task.req_blob true w)
    write_req-read_req w v z h c s a x l al =
        let trip =
          read_req-encode_req le alloc cancelled mem client_id task msg [] h c s a x l al in
        let b = (encode_req le mem client_id task).0 in
        Delivers-Arrives (b ++ opt_bytes task.req_blob) w
          (write_req snk fuel b task.req_blob true w).0
          (write_req snk fuel b task.req_blob true w).1 z
          (ap (λ y. read_req alloc le cancelled (b ++ y))
              (sym (append-nil (opt_bytes task.req_blob)))
            ∙ trip.1)
          (write_req_lem b task.req_blob true w v)
