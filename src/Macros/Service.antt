-- ===== src/Macros/Service.antt =====
-- `#[service]` (macros/src/service.rs): the service that it makes of an `impl`, and what the generated
-- `serve` and its handlers do with a request. The codec is a parameter: what it decodes the bytes of an
-- argument to, by the type, and what it encodes a response to; so are the methods themselves.
pub mod Reach
use occams_rpc.Base.{
  ℕ, Bool, true, false, ◌&&◌, ◌||◌, not, Option, none, some, List, [], ◌∷◌, if◌then◌else◌,
}
use occams_rpc.Base.Result.{Result, ok, err}
use occams_rpc.Error.{RpcIntErr, RpcError}
use occams_rpc.Error.Numbers.{RpcErrCodec}
use occams_rpc.Error.Text.{codes, bytes_eq}
use occams_rpc.Api.Server.{ServerResp, set_result, set_rpc_error, set_error, dispatch_req}
use occams_rpc.Tcp.Server.{RpcSvrReq}
use occams_rpc.Macros.Syntax.{
  SynType, path, impl_trait, tuple, other, Segments, no_segment, segment, PathArguments,
  last_segment, is_named, FnArg, receiver, typed_ident, typed_pat, Method, Item, method, other_item,
  returns_impl_future,
}

-- The `impl`: its trait, if it has one, its type and its items.
pub record ItemImpl : Type 0 where
  pub trait_ : Option Segments
  pub self_ty : SynType
  pub items : List Item

abbrev pub ident_of : Option (List ℕ × PathArguments) → Option (List ℕ)
ident_of none = none
ident_of (some (i, as')) = some i

-- The name of a type's path; any other type is refused by a panic.
abbrev pub type_name : SynType → Option (List ℕ)
type_name (path c p) = ident_of (last_segment p)
type_name (impl_trait bs) = none
type_name (tuple ts) = none
type_name other = none

-- `service_name`: the last segment of the trait, or of the type.
abbrev pub service_name : Option Segments → SynType → Option (List ℕ)
service_name (some p) self_ty = ident_of (last_segment p)
service_name none self_ty = type_name self_ty

-- The type of the first argument that is not `self`; none stands for the panic of `expect`.
abbrev pub first_typed : List FnArg → Option SynType
first_typed [] = none
first_typed (receiver ∷ as') = first_typed as'
first_typed (typed_ident i ty ∷ as') = some ty
first_typed (typed_pat ty ∷ as') = some ty

-- More than one segment.
abbrev pub is_qualified : Segments → Bool
is_qualified no_segment = false
is_qualified (segment i a no_segment) = false
is_qualified (segment i a (segment j b ss)) = true

-- `returns_pin_box_future`, which `async_trait` makes of a method.
abbrev pub returns_pin_box_future : Option SynType → Bool
returns_pin_box_future none = false
returns_pin_box_future (some (path c p)) = is_named (codes "Pin") (last_segment p) && is_qualified p
returns_pin_box_future (some (impl_trait bs)) = false
returns_pin_box_future (some (tuple ts)) = false
returns_pin_box_future (some other) = false

-- `should_await`
abbrev pub should_await : Method → Bool
should_await m = m.asyncness || returns_pin_box_future m.output || returns_impl_future m.output

abbrev pub method_data : Method → Option SynType → Option (List ℕ × SynType)
method_data m none = none
method_data m (some ty) = if should_await m then some (m.ident, ty) else none

abbrev pub push_data :
    Option (List ℕ × SynType) → Option (List (List ℕ × SynType)) → Option (List (List ℕ × SynType))
push_data none ds = none
push_data (some d) none = none
push_data (some d) (some ds) = some (d ∷ ds)

-- `methods_data`: of an `impl` of a trait every method, of another those that are marked.
unfoldable pub methods_data : Bool → List Item → Option (List (List ℕ × SynType))
methods_data of_trait [] = some []
methods_data of_trait (other_item ∷ items) = methods_data of_trait items
methods_data of_trait (method m ∷ items) =
    let rest = methods_data of_trait items in
    if of_trait || m.marked then push_data (method_data m (first_typed m.inputs)) rest else rest

-- What is generated: SERVICE_NAME, and for each method the arm of `serve` with its handler.
pub record ServiceStatic : Type 0 where
  pub name : List ℕ
  pub arms : List (List ℕ × SynType)

abbrev pub is_trait : Option Segments → Bool
is_trait none = false
is_trait (some p) = true

abbrev pub expanded : Option (List ℕ) → Option (List (List ℕ × SynType)) → Option ServiceStatic
expanded none ds = none
expanded (some name) none = none
expanded (some name) (some ds) = some (record { name = name; arms = ds })

-- `service`
unfoldable pub expand_service : ItemImpl → Option ServiceStatic
unfolding methods_data
expand_service i =
    expanded (service_name i.trait_ i.self_ty) (methods_data (is_trait i.trait_) i.items)

-- `APIServerReq`, without the codec and the channel of its answer.
pub record ServerReq : Type 0 where
  pub seq : ℕ
  pub service : List ℕ
  pub method : List ℕ
  pub req : Option (List ℕ)

-- A handler answers, or it panics.
pub data Handled : Type 0 where
  answered : ServerResp → Handled
  panicked : Handled

-- The methods of the service: A are the values of arguments and R those of responses.
pub record Methods (A R E : Type 0) : Type 0 where
  pub decode : SynType → List ℕ → Option A
  pub encode : R → Option (List ℕ)
  pub err_codec : RpcErrCodec E
  pub run : List ℕ → A → Result {0, 0} (RpcError E) R

module _ {A R E : Type 0} (methods : Methods A R E) where
  -- What a handler makes of the method's result.
  abbrev pub respond : ℕ → Result {0, 0} (RpcError E) R → ServerResp
  respond seq (ok resp) = set_result seq (methods.encode resp)
  respond seq (err e) = set_error methods.err_codec seq e

  abbrev pub handle_arg : ℕ → List ℕ → Option A → ServerResp
  handle_arg seq name none = set_rpc_error seq RpcIntErr.decode
  handle_arg seq name (some a) = respond seq (methods.run name a)

  abbrev pub handle_bytes : ℕ → List ℕ × SynType → Option (List ℕ) → Handled
  handle_bytes seq (name, ty) none = panicked
  handle_bytes seq (name, ty) (some buf) = answered (handle_arg seq name (methods.decode ty buf))

  -- `__handle_<method>`
  abbrev pub handle : List ℕ × SynType → ServerReq → Handled
  handle arm req = handle_bytes req.seq arm req.req

  -- The arms of the `match`, in their order, and the last one.
  abbrev pub serve_arms : ServerReq → List (List ℕ × SynType) → Handled
  serve_arms req [] = answered (set_rpc_error req.seq RpcIntErr.method)
  serve_arms req (arm ∷ arms) =
      let rest = serve_arms req arms in if bytes_eq req.method arm.0 then handle arm req else rest

  -- `serve`
  unfoldable pub serve : ServiceStatic → ServerReq → Handled
  serve svc req = serve_arms req svc.arms

-- What `APIDispatch::dispatch_req` makes of a request that the server has read.
abbrev pub dispatched :
    RpcSvrReq → Result {0, 0} Unit (List ℕ × List ℕ) → Result {0, 0} Unit ServerReq
dispatched q (err u) = err u
dispatched q (ok (service, method_name)) =
    ok (record { seq = q.seq; service = service; method = method_name; req = some q.msg })

unfoldable pub dispatch : RpcSvrReq → Result {0, 0} Unit ServerReq
unfolding dispatch_req
dispatch q = dispatched q (dispatch_req q.action)
