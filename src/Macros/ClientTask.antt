-- ===== src/Macros/ClientTask.antt =====
-- `#[client_task]` (stream/macros/src/client_task.rs): how it reads its arguments, the tags of the fields
-- and their types, and what it makes of them. What the generated impls do is in Client/Task.
pub mod Types
pub mod Fields
use occams_rpc.Base.{ℕ, Bool, true, false, Option, none, some, List, [], ◌∷◌, if◌then◌else◌}
use occams_rpc.Error.Text.{codes, bytes_eq}
use occams_rpc.Proto.{RpcAction}
use occams_rpc.Macros.Syntax.{SynType, path, impl_trait, tuple, other, PathArguments, last_segment}
use occams_rpc.Macros.Actions.{NestedMeta, action_value}
use Types.{check_option_inner_type, res_error_type, noti_inner_type}

-- An argument of the attribute: `debug`, or else an action.
pub data TaskArg : Type 0 where
  debug_arg : TaskArg
  action_arg : NestedMeta → TaskArg

-- The loop over the arguments; each may stand once.
abbrev pub read_args : List TaskArg → Bool → Option NestedMeta → Option (Bool × Option NestedMeta)
read_args [] gen_debug static_action = some (gen_debug, static_action)
read_args (debug_arg ∷ as') true static_action = none
read_args (debug_arg ∷ as') false static_action = read_args as' true static_action
read_args (action_arg m ∷ as') gen_debug (some n) = none
read_args (action_arg m ∷ as') gen_debug none = read_args as' gen_debug (some m)

-- What a tag in `#[field(...)]` says of its field.
pub data Role : Type 0 where
  common req resp req_blob resp_blob action res noti unknown : Role

abbrev pub role_of : List ℕ → Role
role_of name =
    if bytes_eq name (codes "common")
    then common
    else if bytes_eq name (codes "req")
    then req
    else if bytes_eq name (codes "resp")
    then resp
    else if bytes_eq name (codes "req_blob")
    then req_blob
    else if bytes_eq name (codes "resp_blob")
    then resp_blob
    else if bytes_eq name (codes "action")
    then action
    else if bytes_eq name (codes "res")
    then res
    else if bytes_eq name (codes "noti")
    then noti
    else unknown

-- A name and a type.
abbrev pub Slot : Type 0
Slot = List ℕ × SynType

-- A field, with the names in its `#[field(...)]` attributes in their order.
pub record Field : Type 0 where
  pub slot : Slot
  pub tags : List (List ℕ)

-- The variables that the loop over the fields sets.
pub record Tagged : Type 0 where
  pub common_field : Option Slot
  pub req_field : Option Slot
  pub resp_field : Option Slot
  pub req_blob_field : Option Slot
  pub resp_blob_field : Option Slot
  pub field_action : Option Slot
  pub res_field : Option Slot
  pub noti_field : Option Slot

abbrev pub nothing_tagged : Tagged
nothing_tagged = record {
  common_field = none;
  req_field = none;
  resp_field = none;
  req_blob_field = none;
  resp_blob_field = none;
  field_action = none;
  res_field = none;
  noti_field = none;
}

-- A second action is a panic; of any other role the last field counts.
abbrev pub set_action : Slot → Tagged → Option Slot → Option Tagged
set_action f t (some g) = none
set_action f t none = some (record t { field_action = some f })

abbrev pub set_role : Role → Slot → Tagged → Option Tagged
set_role common f t = some (record t { common_field = some f })
set_role req f t = some (record t { req_field = some f })
set_role resp f t = some (record t { resp_field = some f })
set_role req_blob f t = some (record t { req_blob_field = some f })
set_role resp_blob f t = some (record t { resp_blob_field = some f })
set_role action f t = set_action f t t.field_action
set_role res f t = some (record t { res_field = some f })
set_role noti f t = some (record t { noti_field = some f })
set_role unknown f t = some t

abbrev pub then_tags : (Tagged → Option Tagged) → Option Tagged → Option Tagged
then_tags next none = none
then_tags next (some t) = next t

-- The loop over the names of one field.
abbrev pub set_tags : List (List ℕ) → Slot → Tagged → Option Tagged
set_tags [] f t = some t
set_tags (name ∷ names) f t = then_tags (set_tags names f) (set_role (role_of name) f t)

-- The loop over the fields.
abbrev pub set_fields : List Field → Tagged → Option Tagged
set_fields [] t = some t
set_fields (f ∷ fs) t = then_tags (set_fields fs) (set_tags f.tags f.slot t)

-- How get_action is generated: not at all, from a field that is a text or a number, or one action.
pub data ActionImpl : Type 0 where
  no_action : ActionImpl
  str_field : List ℕ → ActionImpl
  num_field : List ℕ → ActionImpl
  static_action : RpcAction → ActionImpl

abbrev pub field_impl_of : List ℕ → Option (List ℕ × PathArguments) → Option ActionImpl
field_impl_of name none = none
field_impl_of name (some (i, as')) =
    if bytes_eq i (codes "String") then some (str_field name) else some (num_field name)

abbrev pub field_impl : Slot → Option ActionImpl
field_impl (name, path c p) = field_impl_of name (last_segment p)
field_impl (name, impl_trait bs) = none
field_impl (name, tuple ts) = none
field_impl (name, other) = none

abbrev pub static_impl : Option RpcAction → Option ActionImpl
static_impl none = none
static_impl (some a) = some (static_action a)

-- `client_task_action_impl`, behind the test that not both are given.
abbrev pub action_impl : Option Slot → Option NestedMeta → Option ActionImpl
action_impl (some f) (some m) = none
action_impl (some f) none = field_impl f
action_impl none (some m) = static_impl (action_value m)
action_impl none none = some no_action

-- The impl of ClientTaskDone: the names of the two fields, and the types that are read from theirs.
pub record DoneImpl : Type 0 where
  pub res_name : List ℕ
  pub error_type : SynType
  pub noti_name : List ℕ
  pub noti_type : SynType

abbrev pub done_types : List ℕ → List ℕ → Option SynType → Option SynType → Option (Option DoneImpl)
done_types r n none t = none
done_types r n (some e) none = none
done_types r n (some e) (some t) =
    some (some (record { res_name = r; error_type = e; noti_name = n; noti_type = t }))

-- `client_task_done_impl`, behind the test that both fields are there or neither is.
abbrev pub done_impl : Option Slot → Option Slot → Option (Option DoneImpl)
done_impl none none = some none
done_impl none (some n) = none
done_impl (some r) none = none
done_impl (some r) (some n) = done_types r.0 n.0 (res_error_type r.1) (noti_inner_type n.1)

-- The struct that is accepted, with what is generated for it.
pub record ClientTaskStruct : Type 0 where
  pub common : Slot
  pub req : List ℕ
  pub resp : Slot
  pub req_blob : Option Slot
  pub resp_blob : Option Slot
  pub action : ActionImpl
  pub done : Option DoneImpl
  pub debug : Bool

-- The three fields that must be there, and the type of the response.
abbrev pub mandatory :
    Tagged → Option Slot → Option Slot → Option Slot → Option (Slot × Slot × Slot)
mandatory t none q r = none
mandatory t (some c) none r = none
mandatory t (some c) (some q) none = none
mandatory t (some c) (some q) (some r) =
    if check_option_inner_type r.1 then some (c, q, r) else none

abbrev pub assembled :
    Tagged
    → Bool
    → Option (Slot × Slot × Slot)
    → Option ActionImpl
    → Option (Option DoneImpl)
    → Option ClientTaskStruct
assembled t gen_debug none a d = none
assembled t gen_debug (some m) none d = none
assembled t gen_debug (some m) (some a) none = none
assembled t gen_debug (some (c, q, r)) (some a) (some d) = some (record {
  common = c;
  req = q.0;
  resp = r;
  req_blob = t.req_blob_field;
  resp_blob = t.resp_blob_field;
  action = a;
  done = d;
  debug = gen_debug;
})

abbrev pub with_fields : Bool × Option NestedMeta → Option Tagged → Option ClientTaskStruct
with_fields as' none = none
with_fields (gen_debug, static) (some t) =
    assembled t gen_debug (mandatory t t.common_field t.req_field t.resp_field)
      (action_impl t.field_action static) (done_impl t.res_field t.noti_field)

abbrev pub with_args : List Field → Option (Bool × Option NestedMeta) → Option ClientTaskStruct
with_args fs none = none
with_args fs (some as') = with_fields as' (set_fields fs nothing_tagged)

-- `client_task_impl`
unfoldable pub client_task_impl : List TaskArg → List Field → Option ClientTaskStruct
client_task_impl as' fs = with_args fs (read_args as' false none)
