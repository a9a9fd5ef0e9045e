-- ===== src/Api/Client.antt =====
-- src/client: `APIClientReq` (task.rs), and what a call makes of it, `make_req` and `process_res`
-- (mod.rs).
use occams_rpc.Base.{ℕ, Option, none, some, List, [], ◌∷◌, ◌++◌, length}
use occams_rpc.Base.Result.{Result, ok, err}
use occams_rpc.Error.{
  RpcIntErr, EncodedErr, rpc, num, static, buf, RpcError, user, int_err, raw_num, raw_buf,
}
use occams_rpc.Error.Numbers.{RpcErrCodec}
use occams_rpc.Proto.{ClientTask, str}
use occams_rpc.Tcp.Client.{TaskEnd, ended_ok, custom_error, rpc_error}

-- `APIClientReq`
pub record ClientReq : Type 0 where
  pub seq : ℕ
  pub req_msg : Option (List ℕ)
  pub action : List ℕ
  pub resp : Option (List ℕ)
  pub res : Option (Result {0, 0} EncodedErr Unit)

-- `make_req`, the request being encoded by the codec
abbrev pub make_req : List ℕ → List ℕ → ClientReq
make_req service_method req_buf = record {
  seq = 0;
  req_msg = some req_buf;
  action = service_method;
  resp = none;
  res = none;
}

-- `encode_req`
abbrev pub encode_api_req : Option (List ℕ) → List ℕ → List ℕ × Option ℕ
encode_api_req (some msg) b = (b ++ msg, some (length msg))
encode_api_req none b = (b, some 0)

abbrev pub req_task : ClientReq → ClientTask
req_task r = record {
  get_action = str r.action;
  seq = r.seq;
  encode_req = encode_api_req r.req_msg;
  req_blob = none;
}

-- `decode_resp`: an empty message leaves no response.
abbrev pub decode_resp : List ℕ → ClientReq → ClientReq
decode_resp [] r = r
decode_resp (x ∷ msg) r = record r { resp = some (x ∷ msg) }

-- What the transport does with the task at its end: `decode_resp` and `set_ok`, `set_custom_error`, or
-- `set_rpc_error`.
abbrev pub end_req : TaskEnd → ClientReq → ClientReq
end_req (ended_ok msg blob) r = record (decode_resp msg r) { res = some (ok tt) }
end_req (custom_error e) r = record r { res = some (err e) }
end_req (rpc_error e) r = record r { res = some (err (rpc e)) }

-- What a call gives to its caller; or the client panics.
pub data Called (E R : Type 0) : Type 0 where
  gave : Result {0, 0} (RpcError E) R → Called E R
  panicked : Called E R

module _ {E R : Type 0} (codec : RpcErrCodec E) (decode_msg : List ℕ → Option R) (default : R) where
  abbrev pub or_decode_err : Option E → Called E R
  or_decode_err (some e) = gave (err (user e))
  or_decode_err none = gave (err (int_err RpcIntErr.decode))

  abbrev pub decoded : Option R → Called E R
  decoded (some r) = gave (ok r)
  decoded none = gave (err (int_err RpcIntErr.decode))

  abbrev pub process_task : Option (List ℕ) → Option (Result {0, 0} EncodedErr Unit) → Called E R
  process_task resp none = panicked
  process_task (some resp) (some (ok u)) = decoded (decode_msg resp)
  process_task none (some (ok u)) = gave (ok default)
  process_task resp (some (err (rpc e))) = gave (err (int_err e))
  process_task resp (some (err (num n))) = or_decode_err (codec.decode (raw_num n))
  process_task resp (some (err (buf s))) = or_decode_err (codec.decode (raw_buf s))
  process_task resp (some (err (static s))) = panicked

  -- `process_res`: the task comes back through its channel, or the channel is closed.
  unfoldable pub process_res : Option ClientReq → Called E R
  process_res none = gave (err (int_err RpcIntErr.internal))
  process_res (some task) = process_task task.resp task.res
