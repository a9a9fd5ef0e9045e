-- ===== src/Tcp/Server.antt =====
-- transport/tcp/src/server.rs: `TcpServer::read_req`.
use occams_rpc.Base.{ℕ, zero, suc, ◌-◌, ◌^◌, Bool, Option, some, none, List, [], ltb, if◌then◌else◌}
use occams_rpc.Base.Int.{ℤ, pos, negsuc, as_i32}
use occams_rpc.Base.Result.{Result, ok, err, ◌>>=◌}
use occams_rpc.Error.{RpcIntErr, io, timeout, decode}
use occams_rpc.Error.Text.{from_utf8}
use occams_rpc.Proto.{
  ReqHead, RpcAction, str, num_action, get_action, decode_req_head, rpc_req_header_len,
}
use occams_rpc.Proto.Layout.{ByteOrder}
use occams_rpc.Tcp.{read_exact}

-- `RpcSvrReq`
pub record RpcSvrReq : Type 0 where
  pub seq : ℕ
  pub action : RpcAction
  pub msg : List ℕ
  pub blob : Option (List ℕ)

abbrev pub or_fail {ℓ} : {A : Type ℓ} → Option A → RpcIntErr → Result RpcIntErr A
or_fail none e = err e
or_fail (some a) e = ok a

-- `n as usize`, for an i32: a negative number is out of all bounds.
abbrev pub as_usize : ℤ → ℕ
as_usize (pos n) = n
as_usize (negsuc n) = 2 ^ 64 - 1 - n

-- A wrong head, of whatever kind, is a decoding error. The buffer has the size of the head, so
-- `decode_head` does not panic.
abbrev pub head_or_decode : Option (Result RpcIntErr ReqHead) → Result RpcIntErr ReqHead
head_or_decode none = err decode
head_or_decode (some (err e)) = err decode
head_or_decode (some (ok h)) = ok h

-- The action: a number from the head, or a text behind it.
abbrev pub read_action : Result ℤ ℤ → List ℕ → Result RpcIntErr (RpcAction × List ℕ)
read_action (ok num) s = ok (num_action num, s)
read_action (err action_len) s = do
  (b, s') ← or_fail (read_exact (as_usize action_len) s) io
  t ← or_fail (from_utf8 b) decode
  ok (str t, s')

abbrev pub read_msg : ℕ → List ℕ → Result RpcIntErr (List ℕ × List ℕ)
read_msg n s = if ltb 0 n then or_fail (read_exact n s) io else ok ([], s)

-- `Buffer::alloc` belongs to the crate `io_buffer`: whether it succeeds is a parameter.
module _ (alloc : ℕ → Bool) where
  abbrev pub read_blob : ℤ → List ℕ → Result RpcIntErr (Option (List ℕ) × List ℕ)
  read_blob (negsuc n) s = ok (none, s)
  read_blob (pos zero) s = ok (none, s)
  read_blob (pos (suc n)) s =
      if alloc (suc n)
      then (do (b, s') ← or_fail (read_exact (suc n) s) io; ok (some b, s'))
      else err decode

  -- `TcpServer::read_req`. `cancelled` says that the wait for a head which does not come is ended by
  -- the idle timeout or the closing of the server, and not by the connection.
  unfoldable pub read_req : ByteOrder → Bool → List ℕ → Result RpcIntErr (RpcSvrReq × List ℕ)
  read_req le cancelled s = do
    (b, s₁) ← or_fail (read_exact rpc_req_header_len s) (if cancelled then timeout else io)
    h ← head_or_decode (decode_req_head le b)
    (action, s₂) ← read_action (get_action h) s₁
    (msg, s₃) ← read_msg h.msg_len s₂
    (blob, s₄) ← read_blob (as_i32 h.blob_len) s₃
    ok (record { seq = h.seq; action = action; msg = msg; blob = blob }, s₄)
