-- ===== src/Api/Server.antt =====
-- src/server: `APIServerReq` and `APIServerResp` (task.rs), `APIDispatch` (dispatch.rs) and
-- `ServiceMuxDyn` (service.rs). A response is what `noti.done` hands on. The result of a response is
-- always set when it is made, so it is no option here.
use occams_rpc.Base.{ℕ, Option, none, some, List, [], ◌∷◌, ◌++◌, length, ◌==◌, if◌then◌else◌}
use occams_rpc.Base.Result.{Result, ok, err}
use occams_rpc.Error.{RpcIntErr, EncodedErr, rpc, RpcError, user, int_err}
use occams_rpc.Error.Numbers.{RpcErrCodec}
use occams_rpc.Error.Text.{bytes_eq}
use occams_rpc.Proto.{RpcAction, str, num_action, ServerTaskEncode}

-- `APIServerResp`
pub record ServerResp : Type 0 where
  pub seq : ℕ
  pub msg : Option (List ℕ)
  pub res : Result {0, 0} EncodedErr Unit

-- `set_result`, by what the codec makes of the response
abbrev pub set_result : ℕ → Option (List ℕ) → ServerResp
set_result seq none = record { seq = seq; msg = none; res = err (rpc RpcIntErr.encode) }
set_result seq (some msg) = record { seq = seq; msg = some msg; res = ok tt }

-- `set_rpc_error`
abbrev pub set_rpc_error : ℕ → RpcIntErr → ServerResp
set_rpc_error seq e = record { seq = seq; msg = none; res = err (rpc e) }

-- `set_error`
abbrev pub set_error : {E : Type 0} → RpcErrCodec E → ℕ → RpcError E → ServerResp
set_error codec seq (int_err e) = record { seq = seq; msg = none; res = err (rpc e) }
set_error codec seq (user e) = record { seq = seq; msg = none; res = err (codec.encode e) }

-- `APIServerResp::encode_resp`
abbrev pub encode_res :
    ℕ
    → Option (List ℕ)
    → Result {0, 0} EncodedErr Unit
    → List ℕ
    → List ℕ × ℕ × Result EncodedErr (ℕ × Option (List ℕ))
encode_res seq (some msg) (ok u) buf = (buf ++ msg, seq, ok (length msg, none))
encode_res seq none (ok u) buf = (buf, seq, ok (0, none))
encode_res seq msg (err e) buf = (buf, seq, err e)

abbrev pub resp_task : ServerResp → ServerTaskEncode
resp_task r = record { encode_resp = encode_res r.seq r.msg r.res }

-- `split_once('.')`
abbrev pub put_before : ℕ → Option (List ℕ × List ℕ) → Option (List ℕ × List ℕ)
put_before x none = none
put_before x (some (a, b)) = some (x ∷ a, b)

abbrev pub split_once : List ℕ → Option (List ℕ × List ℕ)
split_once [] = none
split_once (x ∷ s) = let rest = split_once s in if x == 46 then some ([], s) else put_before x rest

-- `APIDispatch::dispatch_req`: the service and the method, or an error
unfoldable pub dispatch_req : RpcAction → Result {0, 0} Unit (List ℕ × List ℕ)
dispatch_req (num_action n) = err tt
dispatch_req (str action) = elim (split_once action) [ some p ↦ ok p | none ↦ err tt ]

-- `ServiceMuxDyn`: `add` puts a service in under its name, in place of one of that name; `serve` hands
-- the request to the service of that name, or answers with the error Service.
module _ {S : Type 0} (get_service_name : S → List ℕ) where
  abbrev pub add : S → List S → List S
  add s [] = s ∷ []
  add s (t ∷ ts) =
      let rest = add s ts in
      if bytes_eq (get_service_name t) (get_service_name s) then s ∷ ts else t ∷ rest

  abbrev pub find_service : List ℕ → List S → Option S
  find_service name [] = none
  find_service name (t ∷ ts) =
      let rest = find_service name ts in if bytes_eq (get_service_name t) name then some t else rest

  abbrev served : (S → ServerResp) → ℕ → Option S → ServerResp
  served serve_dyn seq (some s) = serve_dyn s
  served serve_dyn seq none = set_rpc_error seq RpcIntErr.service

  unfoldable pub serve : (S → ServerResp) → ℕ → List ℕ → List S → ServerResp
  serve serve_dyn seq name ts = served serve_dyn seq (find_service name ts)
