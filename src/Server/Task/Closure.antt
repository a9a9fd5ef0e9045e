-- ===== src/Server/Task/Closure.antt =====
-- `DispatchClosure` of stream/src/server/dispatch.rs for `ServerTaskVariant` (task.rs): it fills what a
-- connection asks of its dispatch. The handler is a step of the connection.
use occams_rpc.Base.{ℕ, Option, List}
use occams_rpc.Base.Result.{Result}
use occams_rpc.Error.Numbers.{RpcErrCodec}
use occams_rpc.Server.Conn.{Dispatch}
use occams_rpc.Server.Task.{Variant, variant_decode, variant_encoded}
use occams_rpc.Server.Task.Trip.{variant_of-seq}

-- A task that is done has its result set.
abbrev pub DoneVariant : Type 0 → Type 0 → Type 0 → Type 0
DoneVariant M E N = Variant M E N × Result {0, 0} E (Unit {0})

abbrev pub dispatch_closure :
    {M E N : Type 0}
    → RpcErrCodec E
    → (List ℕ → Option M)
    → (M → List ℕ → List ℕ × Option ℕ)
    → N
    → Dispatch (Variant M E N) (DoneVariant M E N)
dispatch_closure codec decode encode_into noti = record {
  decode_req = λ q. variant_decode decode q noti;
  task_seq = λ t. t.seq;
  resp_seq = λ r. r.0.seq;
  encode = λ r. record { encode_resp = variant_encoded codec encode_into r.0 r.1 };
  decode_req-seq = λ q t e. (variant_of-seq q noti (decode q.msg) t e).0;
}
