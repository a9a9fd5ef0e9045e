-- ===== src/Tcp/Write.antt =====
-- The writing side of transport/tcp/src: `write_req`, `flush_req` and `close_conn` of the client, and
-- `write_resp`, `write_resp_internal` and `close_conn` of the server, on the buffered writer of a
-- connection. The timeouts around the writes are left out: a write here ends by itself.
pub mod Delivery
use occams_rpc.Base.{ℕ, Bool, true, false, Option, none, some, List, if◌then◌else◌}
use occams_rpc.Base.Result.{Result, ok, err}
use occams_rpc.Error.{RpcIntErr}
use occams_rpc.Io.{Sink}
use occams_rpc.Io.Write.{Done, Buffered, write_all, flush}
use occams_rpc.Io.Write.Front.{buffered_sink}
use occams_rpc.Proto.{ServerTaskEncode, encode_resp, encode_internal}
use occams_rpc.Proto.Layout.{ByteOrder}

module _ {S : Type 0} (snk : Sink S) (fuel : ℕ) where
  abbrev pub write_blob : Option (List ℕ) → Done × Buffered S → Done × Buffered S
  write_blob blob (err e, w) = (err e, w)
  write_blob none (ok u, w) = (ok u, w)
  write_blob (some b) (ok u, w) = write_all (buffered_sink snk fuel) fuel b w

  -- The buffer, then the blob.
  abbrev pub write_both : List ℕ → Option (List ℕ) → Buffered S → Done × Buffered S
  write_both buf blob w = write_blob blob (write_all (buffered_sink snk fuel) fuel buf w)

  abbrev pub flush_if : Bool → Done × Buffered S → Done × Buffered S
  flush_if need_flush (err e, w) = (err e, w)
  flush_if true (ok u, w) = flush snk fuel w
  flush_if false (ok u, w) = (ok u, w)

  -- `TcpClient::write_req`
  unfoldable pub write_req : List ℕ → Option (List ℕ) → Bool → Buffered S → Done × Buffered S
  write_req buf blob need_flush w = flush_if need_flush (write_both buf blob w)

  -- `TcpServer::write_resp`
  unfoldable pub write_resp : ByteOrder → List ℕ → ServerTaskEncode → Buffered S → Done × Buffered S
  write_resp le mem task w = let (buf, seq, blob) = encode_resp le mem task in write_both buf blob w

  -- `TcpServer::write_resp_internal`
  unfoldable pub write_resp_internal :
      ByteOrder → List ℕ → ℕ → Option RpcIntErr → Buffered S → Done × Buffered S
  write_resp_internal le mem seq e w =
      write_all (buffered_sink snk fuel) fuel (encode_internal le mem seq e) w

  -- `close_conn` of both sides: the stream is shut down only behind a flush that succeeded.
  abbrev pub shut : (S → S) → Done × Buffered S → Buffered S
  shut shutdown_write (ok u, v) = record v { inner = shutdown_write v.inner }
  shut shutdown_write (err e, v) = v

  unfoldable pub close_conn : (S → S) → Buffered S → Buffered S
  close_conn shutdown_write w = shut shutdown_write (flush snk fuel w)
