-- ===== src/Client/Task.antt =====
-- The client task that `#[client_task]` makes of a struct (stream/macros/src/client_task.rs): what the
-- generated impls of ClientTaskEncode, ClientTaskDecode, ClientTaskDone and ClientTaskGetResult do to a
-- struct whose fields are tagged common, req, resp, resp_blob, res and noti. The codec is a parameter.
pub mod Trip
use occams_rpc.Base.{ℕ, Option, none, some, List, [], ◌∷◌}
use occams_rpc.Base.Result.{Result, ok, err}
use occams_rpc.Error.{
  RpcIntErr, internal, EncodedErr, rpc, num, static, buf, RpcError, user, int_err, raw_num, raw_buf,
}
use occams_rpc.Error.Numbers.{RpcErrCodec}
use occams_rpc.Tcp.Client.{TaskEnd, ended_ok, custom_error, rpc_error}

-- The struct: Q, P and E are the types of the request, the response and the error, and N is the type
-- of the channel that it goes back through.
pub record TaskStruct (Q P E N : Type 0) : Type 0 where
  pub seq : ℕ
  pub req : Q
  pub resp : Option P
  pub resp_blob : Option (List ℕ)
  pub res : Option (Result {0, 0} (RpcError E) (Unit {0}))
  pub noti : Option N

-- A response without a blob leaves the field as it was.
abbrev pub blob_or : Option (List ℕ) → Option (List ℕ) → Option (List ℕ)
blob_or none held = held
blob_or (some blob) held = some blob

-- `encode_req`: what the codec makes of the request in the buffer.
abbrev pub encode_req :
    {Q P E N : Type 0}
    → (Q → List ℕ → List ℕ × Option ℕ)
    → TaskStruct Q P E N
    → List ℕ
    → List ℕ × Option ℕ
encode_req encode_into t b = encode_into t.req b

module _ {E : Type 0} where
  abbrev pub decoded_err : Option E → RpcError E
  decoded_err (some e) = user e
  decoded_err none = int_err RpcIntErr.decode

  abbrev pub custom_of : RpcErrCodec E → EncodedErr → RpcError E
  custom_of codec (rpc e) = int_err e
  custom_of codec (num n) = decoded_err (codec.decode (raw_num n))
  custom_of codec (static s) = decoded_err (codec.decode (raw_buf s))
  custom_of codec (buf b) = decoded_err (codec.decode (raw_buf b))

  abbrev pub result_of :
      Option (Result {0, 0} (RpcError E) (Unit {0})) → Result {0, 0} (RpcError E) (Unit {0})
  result_of (some res) = res
  result_of none = err (int_err internal)

module _ {Q P E N : Type 0} where
  abbrev pub decoded_to : TaskStruct Q P E N → Option P → Option (TaskStruct Q P E N)
  decoded_to t none = none
  decoded_to t (some resp) = some (record t { resp = some resp })

  -- `decode_resp`; none stands for its `Err(())`, which leaves the task as it is.
  abbrev pub decode_resp :
      (List ℕ → Option P) → List ℕ → TaskStruct Q P E N → Option (TaskStruct Q P E N)
  decode_resp decode buffer t = decoded_to t (decode buffer)

  abbrev pub set_rpc_error : RpcIntErr → TaskStruct Q P E N → TaskStruct Q P E N
  set_rpc_error e t = record t { res = some (err (int_err e)) }

  abbrev pub set_ok : TaskStruct Q P E N → TaskStruct Q P E N
  set_ok t = record t { res = some (ok tt) }

  abbrev pub set_custom_error : RpcErrCodec E → EncodedErr → TaskStruct Q P E N → TaskStruct Q P E N
  set_custom_error codec x t = record t { res = some (err (custom_of codec x)) }

  -- `get_result`
  abbrev pub get_result : TaskStruct Q P E N → Result {0, 0} (RpcError E) (Unit {0})
  get_result t = result_of t.res

  abbrev pub sent_back : TaskStruct Q P E N → Option N → Option (N × TaskStruct Q P E N)
  sent_back t none = none
  sent_back t (some noti) = some (noti, record t { noti = none })

  -- `done`: the task goes through the channel that is taken out of it, if there is one.
  abbrev pub done : TaskStruct Q P E N → Option (N × TaskStruct Q P E N)
  done t = sent_back t t.noti

  abbrev pub filled : Option (List ℕ) → TaskStruct Q P E N → TaskStruct Q P E N
  filled blob t = record t { resp_blob = blob_or blob t.resp_blob }

  module _ (codec : RpcErrCodec E) (decode : List ℕ → Option P) where
    abbrev pub decoded_end : TaskStruct Q P E N → Option (TaskStruct Q P E N) → TaskStruct Q P E N
    decoded_end t none = set_rpc_error RpcIntErr.decode t
    decoded_end t (some t') = set_ok t'

    -- What the transport does with the task whose end this is: a blob has been read into it, a message
    -- that is not empty is decoded, and the result is set. A blob that was read before an error is not
    -- in the model.
    abbrev pub end_task : TaskEnd → TaskStruct Q P E N → TaskStruct Q P E N
    end_task (ended_ok [] blob) t = set_ok (filled blob t)
    end_task (ended_ok (x ∷ msg) blob) t =
        decoded_end (filled blob t) (decode_resp decode (x ∷ msg) (filled blob t))
    end_task (custom_error e) t = set_custom_error codec e t
    end_task (rpc_error e) t = set_rpc_error e t
