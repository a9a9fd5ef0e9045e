-- ===== src/Server/Task.antt =====
-- The task types of stream/src/server: `ServerTaskVariant`, `ServerTaskVariantFull` and what goes
-- through a `RespNoti` (task.rs), and `RpcSvrResp` (mod.rs). The codec is a parameter: what it decodes
-- a message to, and what it does to the buffer it encodes into.
pub mod Trip
pub mod Closure
use occams_rpc.Base.{ℕ, Option, none, some, List, ◌++◌, length, Bool, true, false}
use occams_rpc.Base.Result.{Result, ok, err}
use occams_rpc.Error.{RpcIntErr, EncodedErr, rpc, encode as encode_err}
use occams_rpc.Error.Numbers.{RpcErrCodec}
use occams_rpc.Proto.{RpcAction}
use occams_rpc.Tcp.Server.{RpcSvrReq}

-- What goes through a `RespNoti`: a task that is done, or an answer of the framework itself.
abbrev pub Answer : Type 0 → Type 0
Answer R = Result (ℕ × Option RpcIntErr) R

-- What `encode_resp` gives; none stands for its panic.
abbrev pub Encoded : Type 0
Encoded = Option (List ℕ × ℕ × Result {0, 0} EncodedErr (ℕ × Option (List ℕ)))

-- `ServerTaskVariant`: N is the type of a `RespNoti`.
pub record Variant (M E N : Type 0) : Type 0 where
  pub seq : ℕ
  pub action : RpcAction
  pub msg : M
  pub blob : Option (List ℕ)
  pub res : Option (Result {0, 0} E (Unit {0}))
  pub noti : Option N

-- `ServerTaskVariantFull`
pub record VariantFull (Q P E N : Type 0) : Type 0 where
  pub seq : ℕ
  pub action : RpcAction
  pub req : Q
  pub req_blob : Option (List ℕ)
  pub resp : Option P
  pub resp_blob : Option (List ℕ)
  pub res : Option (Result {0, 0} E (Unit {0}))
  pub noti : Option N

-- `RpcSvrResp`
pub record RpcSvrResp : Type 0 where
  pub seq : ℕ
  pub msg : Option (List ℕ)
  pub blob : Option (List ℕ)
  pub res : Option (Result {0, 0} EncodedErr (Unit {0}))

-- The end of every `encode_resp`: what the codec makes of the message, or the task's own error.
abbrev pub encoded_msg :
    ℕ
    → Option (List ℕ)
    → List ℕ × Option ℕ
    → List ℕ × ℕ × Result {0, 0} EncodedErr (ℕ × Option (List ℕ))
encoded_msg seq blob (b, some msg_len) = (b, seq, ok (msg_len, blob))
encoded_msg seq blob (b, none) = (b, seq, err (rpc encode_err))

module _ {M E N : Type 0} where
  abbrev pub variant_of : RpcSvrReq → N → Option M → Result {0, 0} (Unit {0}) (Variant M E N)
  variant_of q noti none = err tt
  variant_of q noti (some msg) = ok (record {
    seq = q.seq;
    action = q.action;
    msg = msg;
    blob = q.blob;
    res = none;
    noti = some noti;
  })

  -- `ServerTaskVariant::decode_req`
  abbrev pub variant_decode :
      (List ℕ → Option M) → RpcSvrReq → N → Result {0, 0} (Unit {0}) (Variant M E N)
  variant_decode decode q noti = variant_of q noti (decode q.msg)

  -- `ServerTaskVariant::_set_result`: the sender is taken out; none stands for the panic of a task
  -- that was answered before.
  abbrev pub variant_set_noti :
      Result {0, 0} E (Unit {0}) → Variant M E N → Option N → Option (N × Variant M E N)
  variant_set_noti res t none = none
  variant_set_noti res t (some noti) = some (noti, record t { res = some res; noti = none })

  abbrev pub variant_set_result :
      Result {0, 0} E (Unit {0}) → Variant M E N → Option (N × Variant M E N)
  variant_set_result res t = variant_set_noti res t t.noti

  module _ (codec : RpcErrCodec E) (encode_into : M → List ℕ → List ℕ × Option ℕ) where
    abbrev pub variant_encoded :
        Variant M E N
        → Result {0, 0} E (Unit {0})
        → List ℕ
        → List ℕ × ℕ × Result {0, 0} EncodedErr (ℕ × Option (List ℕ))
    variant_encoded t (ok u) buf = encoded_msg t.seq t.blob (encode_into t.msg buf)
    variant_encoded t (err e) buf = (buf, t.seq, err (codec.encode e))

    abbrev pub variant_encode_res :
        Variant M E N → Option (Result {0, 0} E (Unit {0})) → List ℕ → Encoded
    variant_encode_res t none buf = none
    variant_encode_res t (some res) buf = some (variant_encoded t res buf)

    -- `ServerTaskVariant::encode_resp`
    abbrev pub variant_encode_resp : Variant M E N → List ℕ → Encoded
    variant_encode_resp t buf = variant_encode_res t t.res buf

module _ {Q P E N : Type 0} where
  abbrev pub full_of : RpcSvrReq → N → Option Q → Result {0, 0} (Unit {0}) (VariantFull Q P E N)
  full_of q noti none = err tt
  full_of q noti (some req) = ok (record {
    seq = q.seq;
    action = q.action;
    req = req;
    req_blob = q.blob;
    resp = none;
    resp_blob = none;
    res = none;
    noti = some noti;
  })

  -- `ServerTaskVariantFull::decode_req`
  abbrev pub full_decode :
      (List ℕ → Option Q) → RpcSvrReq → N → Result {0, 0} (Unit {0}) (VariantFull Q P E N)
  full_decode decode q noti = full_of q noti (decode q.msg)

  abbrev pub full_set_noti :
      Result {0, 0} E (Unit {0}) → VariantFull Q P E N → Option N → Option (N × VariantFull Q P E N)
  full_set_noti res t none = none
  full_set_noti res t (some noti) = some (noti, record t { res = some res; noti = none })

  -- `ServerTaskVariantFull::_set_result`
  abbrev pub full_set_result :
      Result {0, 0} E (Unit {0}) → VariantFull Q P E N → Option (N × VariantFull Q P E N)
  full_set_result res t = full_set_noti res t t.noti

  module _ (codec : RpcErrCodec E) (encode_into : P → List ℕ → List ℕ × Option ℕ) where
    -- A response that was not filled in is empty.
    abbrev pub full_encode_msg :
        VariantFull Q P E N
        → Option P
        → List ℕ
        → List ℕ × ℕ × Result {0, 0} EncodedErr (ℕ × Option (List ℕ))
    full_encode_msg t none buf = (buf, t.seq, ok (0, t.resp_blob))
    full_encode_msg t (some resp) buf = encoded_msg t.seq t.resp_blob (encode_into resp buf)

    abbrev pub full_encoded :
        VariantFull Q P E N
        → Result {0, 0} E (Unit {0})
        → List ℕ
        → List ℕ × ℕ × Result {0, 0} EncodedErr (ℕ × Option (List ℕ))
    full_encoded t (ok u) buf = full_encode_msg t t.resp buf
    full_encoded t (err e) buf = (buf, t.seq, err (codec.encode e))

    abbrev pub full_encode_res :
        VariantFull Q P E N → Option (Result {0, 0} E (Unit {0})) → List ℕ → Encoded
    full_encode_res t none buf = none
    full_encode_res t (some res) buf = some (full_encoded t res buf)

    -- `ServerTaskVariantFull::encode_resp`
    abbrev pub full_encode_resp : VariantFull Q P E N → List ℕ → Encoded
    full_encode_resp t buf = full_encode_res t t.res buf

abbrev pub svr_msg :
    ℕ
    → Option (List ℕ)
    → Option (List ℕ)
    → List ℕ
    → List ℕ × ℕ × Result {0, 0} EncodedErr (ℕ × Option (List ℕ))
svr_msg seq blob none buf = (buf, seq, ok (0, blob))
svr_msg seq blob (some msg) buf = (buf ++ msg, seq, ok (length msg, blob))

abbrev pub svr_res : RpcSvrResp → Option (Result {0, 0} EncodedErr (Unit {0})) → List ℕ → Encoded
svr_res r none buf = none
svr_res r (some (ok u)) buf = some (svr_msg r.seq r.blob r.msg buf)
svr_res r (some (err e)) buf = some (buf, r.seq, err e)

-- `RpcSvrResp::encode_resp`
abbrev pub svr_encode_resp : RpcSvrResp → List ℕ → Encoded
svr_encode_resp r buf = svr_res r r.res buf
