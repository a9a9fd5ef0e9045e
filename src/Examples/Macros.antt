-- ===== src/Examples/Macros.antt =====
-- The procedural macros (macros/src and stream/macros/src) at concrete items.
use occams_rpc.Base.{
  ℕ, ◌+◌, ◌≡◌, refl, sym, inl, true, false, Option, none, some, List, [], ◌∷◌, arith, leb,
  if◌then◌else◌, get_elem?,
}
use occams_rpc.Base.Int.{ℤ, pos}
use occams_rpc.Base.Result.{Result, ok, err}
use occams_rpc.Error.{RpcError, user}
use occams_rpc.Error.Text.{codes, is_utf8}
use occams_rpc.Error.Numbers.{u8, num_codec, num_encode}
use occams_rpc.Error.Numbers.RoundTrip.{carried-num_codec}
use occams_rpc.Proto.{RpcAction, str, num_action, encode_req}
use occams_rpc.Proto.Layout.{little_endian}
use occams_rpc.Api.Server.{ServerResp}
use occams_rpc.Api.Client.{make_req, gave, req_task}
use occams_rpc.Api.Call.{Brings}
use occams_rpc.Macros.Syntax.{
  SynType, path, segment, no_segment, no_args, angle_bracketed, arg, no_arg, type_arg, Segments,
  receiver, typed_ident, Method, method, other,
}
use occams_rpc.Macros.Endpoint.{Generated, generate_trait_impl, async_fn}
use occams_rpc.Macros.Service.{ItemImpl, ServiceStatic, expand_service, Methods, serve}
use occams_rpc.Macros.Mux.{Field}
use occams_rpc.Macros.Calls.{ServerAnswers, endpoint_call}
use occams_rpc.Macros.Actions.{Variant, other_attr, action_list, lit_int, lit_str, meta_path}
use occams_rpc.Macros.ServerEnum.{
  ServerEnum, Inner, req_arg, resp_arg, error_arg, server_task_enum_impl, decode_req, get_action,
}
use occams_rpc.Macros.ServerEnum.Routes.{KeepsAction, route, routed, decode_req-route}
use occams_rpc.Macros.ClientEnum.{Arm, ClientTaskImpl, client_task_enum_impl, enum_impl}
use occams_rpc.Macros.ClientEnum.Arms.{attribute_action, client_task_enum_impl_lem}
use occams_rpc.Macros.ClientEnum.Arrival.{get_action-Arrives}
use occams_rpc.Macros.ClientTask.{
  common, req, resp, req_blob, resp_blob, action, res, noti, set_fields, nothing_tagged,
  Field as TaskField,
}
use occams_rpc.Macros.ClientTask.Fields.{last_with, all_actions, set_fields_lem}
use occams_rpc.Examples.Wire.{room, waiting}

-- `async fn add(&self, a: u8) -> Result<u8, RpcError<u8>>`
abbrev byte_type : SynType
byte_type = path false (segment (codes "u8") no_args no_segment)

abbrev error_segment : Segments
error_segment =
    segment (codes "RpcError") (angle_bracketed (arg (type_arg byte_type) no_arg)) no_segment

abbrev result_type : SynType
result_type = path false (
    segment (codes "Result")
      (angle_bracketed
        (arg (type_arg byte_type) (arg (type_arg (path false error_segment)) no_arg)))
      no_segment)

abbrev add : Method
add = record {
  ident = codes "add";
  asyncness = true;
  inputs = receiver ∷ typed_ident (codes "a") byte_type ∷ [];
  output = some result_type;
  marked = false;
}

abbrev add_client : Generated
add_client = record {
  ident = codes "add";
  arg_name = some (codes "a");
  form = async_fn;
  service_method = codes "Calc.add";
}

abbrev calc_impl : ItemImpl
calc_impl = record {
  trait_ = some (segment (codes "Calc") no_args no_segment);
  self_ty = path false (segment (codes "Server") no_args no_segment);
  items = method add ∷ [];
}

abbrev calc_service : ServiceStatic
calc_service = record { name = codes "Calc"; arms = (codes "add", byte_type) ∷ [] }

abbrev first_byte : List ℕ → Option ℕ
first_byte [] = none
first_byte (x ∷ xs) = some x

-- A method that fails with its argument as a code, or adds one to it.
abbrev run_add : List ℕ → ℕ → Result {0, 0} (RpcError ℤ) ℕ
run_add name a = if leb 200 a then err (user (pos a)) else ok (a + 1)

abbrev calc : Methods ℕ ℕ ℤ
calc = record {
  decode = λ ty buf. first_byte buf;
  encode = λ r. some (r ∷ []);
  err_codec = num_codec (λ t. 255) u8;
  run = run_add;
}

abbrev mux : List Field
mux = record { name = codes "Calc"; serve = serve calc calc_service } ∷ []

endpoint_call_example :
    let asked = record (make_req (codes "Calc.add") (201 ∷ [])) { seq = 7 } in
    (resp : ServerResp) × ServerAnswers calc first_byte 0 waiting little_endian
      (λ n. true)
      false
      5
      mux
      (encode_req little_endian room 5 (req_task asked)).0
      resp
    × Brings calc.err_codec first_byte 0 asked waiting little_endian room [] 7 resp
        (gave (err (user (pos 201))))
unfolding generate_trait_impl expand_service num_codec num_encode is_utf8
endpoint_call_example =
    endpoint_call calc first_byte 0 waiting little_endian (λ n. true) false 5 mux (codes "Calc")
      (method add ∷ []) (add_client ∷ []) add_client calc_impl calc_service add 201 (201 ∷ []) room
      7 refl (inl refl) refl refl (inl (refl, refl)) refl (inl refl) (omega arith) (λ ty e. refl)
      (omega arith) (omega arith) (omega arith) (omega arith) (omega arith) refl (omega arith) refl
      refl (carried-num_codec (λ t. 255) u8 (pos 201) (omega arith), omega arith, tt)

-- An enum of two requests, of the actions 1, and "a" or 2, on either side.
abbrev server_variants : List Variant
server_variants =
    record {
      attrs = other_attr ∷ action_list (lit_int (some (pos 1)) ∷ []) ∷ [];
      inner_type = some (codes "Open");
    }
    ∷ record {
      attrs = action_list (lit_str (codes "a") ∷ meta_path (pos 2) ∷ []) ∷ [];
      inner_type = some (codes "Read");
    }
    ∷ []

abbrev server_enum : ServerEnum
server_enum = record {
  attrs = record { req = true; resp = true; resp_type = none; error = codes "Errno" };
  resp_type = codes "Task";
  arms =
      record {
        inner_type = codes "Open";
        actions = num_action (pos 1) ∷ [];
        fixed = some (num_action (pos 1));
      }
      ∷ record {
        inner_type = codes "Read";
        actions = str (codes "a") ∷ num_action (pos 2) ∷ [];
        fixed = none;
      }
      ∷ [];
}

-- A task of the server that is the action it was decoded with.
abbrev kept_actions : Inner RpcAction ℤ ℕ ℕ (Unit {0})
kept_actions = record {
  decode_req = λ ty action q. ok action;
  get_action = λ task. task;
  encode_resp = λ task. 0;
  set_result = λ res task. none;
}

ok_injective : {A : Type 0} (a b : A) → ◌≡◌ {A = Result {0, 0} (Unit {0}) A} (ok a) (ok b) → a ≡ b
ok_injective a b e = ground (arith, e)

kept : KeepsAction kept_actions
kept ty a q task e = sym (ok_injective a task e)

decode_req-route_example :
    (decode_req kept_actions server_enum (num_action (pos 2)) tt
      ≡ routed kept_actions (num_action (pos 2)) tt (route 0 server_variants (num_action (pos 2))))
    × ((task : ℕ × RpcAction)
        → decode_req kept_actions server_enum (num_action (pos 2)) tt ≡ ok task
        → get_action kept_actions server_enum task ≡ some (num_action (pos 2)))
unfolding server_task_enum_impl
decode_req-route_example =
    decode_req-route kept_actions kept (req_arg ∷ resp_arg ∷ error_arg (codes "Errno") ∷ [])
      (codes "Task") server_variants server_enum (num_action (pos 2)) tt refl refl

abbrev client_variants : List Variant
client_variants =
    record { attrs = other_attr ∷ []; inner_type = some (codes "OpenTask") }
    ∷ record {
      attrs = action_list (lit_str (codes "a") ∷ []) ∷ [];
      inner_type = some (codes "ReadTask");
    }
    ∷ []

abbrev client_arms : List Arm
client_arms =
    record { inner_type = codes "OpenTask"; fixed = none }
    ∷ record { inner_type = codes "ReadTask"; fixed = some (str (codes "a")) }
    ∷ []

-- A task of the client, all of whose calls leave it as it is.
abbrev idle : ClientTaskImpl ℕ ℤ ℕ ℕ ℕ
idle = record {
  encode_req = λ t c b. 0;
  get_req_blob = λ t. none;
  decode_resp = λ t c b. some t;
  reserve_resp_blob = λ t n. none;
  get_action = λ t. num_action (pos 1);
  get_result = λ t. ok tt;
  set_custom_error = λ t c e. t;
  set_rpc_error = λ t e. t;
  set_ok = λ t. t;
  done = λ t. t;
  seq = λ t. t;
}

client_task_enum_impl_lem_example :
    ((task : ℕ)
      → attribute_action idle.get_action (action_list (lit_str (codes "a") ∷ []) ∷ []) task
        ≡ some ((enum_impl client_arms idle).get_action (1, task)))
    × ((j : ℕ) (w : Variant)
        → get_elem? client_variants j ≡ some w
        → w.inner_type ≡ some (codes "ReadTask")
        → j ≡ 1)
unfolding client_task_enum_impl
client_task_enum_impl_lem_example =
    client_task_enum_impl_lem idle (some (codes "Errno")) client_variants client_arms refl 1
      (record {
        attrs = action_list (lit_str (codes "a") ∷ []) ∷ [];
        inner_type = some (codes "ReadTask");
      })
      refl

get_action-Arrives_example :
    let sent = (enum_impl client_arms idle).get_action (1, 5) in
    (decode_req kept_actions server_enum sent tt
      ≡ routed kept_actions (str (codes "a")) tt (route 0 server_variants (str (codes "a"))))
    × ((decoded : ℕ × RpcAction)
        → decode_req kept_actions server_enum sent tt ≡ ok decoded
        → get_action kept_actions server_enum decoded ≡ some (str (codes "a")))
unfolding client_task_enum_impl server_task_enum_impl
get_action-Arrives_example =
    get_action-Arrives idle kept_actions kept (some (codes "Errno")) client_variants client_arms
      (req_arg ∷ resp_arg ∷ error_arg (codes "Errno") ∷ []) (codes "Task") server_variants
      server_enum 1
      (record {
        attrs = action_list (lit_str (codes "a") ∷ []) ∷ [];
        inner_type = some (codes "ReadTask");
      })
      5 (str (codes "a")) tt refl refl refl refl refl

set_fields_lem_example :
    let fs : List TaskField =
      record { slot = (codes "c", other); tags = codes "common" ∷ [] }
      ∷ record { slot = (codes "r", other); tags = codes "req" ∷ codes "action" ∷ [] }
      ∷ [] in
    set_fields fs nothing_tagged ≡ (
      if leb (all_actions fs) 1
      then some (record {
        common_field = last_with fs common;
        req_field = last_with fs req;
        resp_field = last_with fs resp;
        req_blob_field = last_with fs req_blob;
        resp_blob_field = last_with fs resp_blob;
        field_action = last_with fs action;
        res_field = last_with fs res;
        noti_field = last_with fs noti;
      })
      else none)
set_fields_lem_example = set_fields_lem (
    record { slot = (codes "c", other); tags = codes "common" ∷ [] }
    ∷ record { slot = (codes "r", other); tags = codes "req" ∷ codes "action" ∷ [] }
    ∷ [])
