-- ===== src/Macros/ClientEnum.antt =====
-- `#[client_task_enum]` (stream/macros/src/client_task_enum.rs): the enum that it accepts, and the
-- generated impls, which hand every call to the task inside. A value of the enum is the place of its
-- variant with the task inside.
pub mod Arms
pub mod Arrival
use occams_rpc.Base.{
  ℕ, Bool, true, false, Option, none, some, List, [], ◌∷◌, ◌||◌, if◌then◌else◌, get_elem?,
}
use occams_rpc.Base.Result.{Result}
use occams_rpc.Error.{RpcIntErr, RpcError, EncodedErr}
use occams_rpc.Error.Text.{bytes_eq}
use occams_rpc.Proto.{RpcAction}
use occams_rpc.Macros.Actions.{
  NestedMeta, lit_str, lit_int, meta_path, other_lit, other_meta, Attribute, action_list,
  action_other, other_attr, Variant, action_value,
}

-- A literal that stands alone; more than one is a panic.
abbrev pub one_literal : NestedMeta → List NestedMeta → Option (Option NestedMeta)
one_literal m [] = some (some m)
one_literal m (n ∷ ms) = none

-- `get_action_attribute`: of the first list that begins with a literal or a path, the first. What
-- stands behind a path is not looked at.
abbrev pub get_action_attribute : List Attribute → Option (Option NestedMeta)
get_action_attribute [] = some none
get_action_attribute (action_list [] ∷ attrs) = get_action_attribute attrs
get_action_attribute (action_list (other_meta ∷ ms) ∷ attrs) = get_action_attribute attrs
get_action_attribute (action_list (meta_path z ∷ ms) ∷ attrs) = some (some (meta_path z))
get_action_attribute (action_list (lit_str s ∷ ms) ∷ attrs) = one_literal (lit_str s) ms
get_action_attribute (action_list (lit_int i ∷ ms) ∷ attrs) = one_literal (lit_int i) ms
get_action_attribute (action_list (other_lit ∷ ms) ∷ attrs) = one_literal other_lit ms
get_action_attribute (action_other ∷ attrs) = get_action_attribute attrs
get_action_attribute (other_attr ∷ attrs) = get_action_attribute attrs

-- The arm of get_action: one action, or none if the task inside is asked.
abbrev pub fixed_action : Option RpcAction → Option (Option RpcAction)
fixed_action none = none
fixed_action (some a) = some (some a)

abbrev pub action_arm : Option (Option NestedMeta) → Option (Option RpcAction)
action_arm none = none
action_arm (some none) = some none
action_arm (some (some m)) = fixed_action (action_value m)

pub record Arm : Type 0 where
  pub inner_type : List ℕ
  pub fixed : Option RpcAction

abbrev pub arm_with : List ℕ → Option (Option RpcAction) → Option Arm
arm_with ty none = none
arm_with ty (some fixed) = some (record { inner_type = ty; fixed = fixed })

abbrev pub seen_before : List ℕ → List (List ℕ) → Bool
seen_before ty [] = false
seen_before ty (t ∷ ts) = bytes_eq t ty || seen_before ty ts

abbrev pub push_arm : Option Arm → Option (List Arm) → Option (List Arm)
push_arm none rest = none
push_arm (some a) none = none
push_arm (some a) (some rest) = some (a ∷ rest)

-- A sub-type that was seen before is a panic, as `From` could not be made for it.
abbrev pub checked_arm : List (List ℕ) → List Attribute → Option (List ℕ) → Option Arm
checked_arm seen attrs none = none
checked_arm seen attrs (some ty) =
    if seen_before ty seen then none else arm_with ty (action_arm (get_action_attribute attrs))

abbrev pub also_seen : Option (List ℕ) → List (List ℕ) → List (List ℕ)
also_seen none seen = seen
also_seen (some ty) seen = ty ∷ seen

-- The loop over the variants, with the types seen so far (`inner_type_counts`).
abbrev pub enum_arms : List (List ℕ) → List Variant → Option (List Arm)
enum_arms seen [] = some []
enum_arms seen (v ∷ vs) =
    push_arm (checked_arm seen v.attrs v.inner_type) (enum_arms (also_seen v.inner_type seen) vs)

-- `client_task_enum_impl`: the error type must be given.
unfoldable pub client_task_enum_impl : Option (List ℕ) → List Variant → Option (List Arm)
client_task_enum_impl none vs = none
client_task_enum_impl (some error_type) vs = enum_arms [] vs

-- What a client task does: C is a codec, O what encode_req gives, N where `done` sends the task.
pub record ClientTaskImpl (T E C O N : Type 0) : Type 0 where
  pub encode_req : T → C → List ℕ → O
  pub get_req_blob : T → Option (List ℕ)
  pub decode_resp : T → C → List ℕ → Option T
  pub reserve_resp_blob : T → ℕ → Option T
  pub get_action : T → RpcAction
  pub get_result : T → Result {0, 0} (RpcError E) (Unit {0})
  pub set_custom_error : T → C → EncodedErr → T
  pub set_rpc_error : T → RpcIntErr → T
  pub set_ok : T → T
  pub done : T → N
  pub seq : T → ℕ

abbrev pub in_place : {T : Type 0} → ℕ → Option T → Option (ℕ × T)
in_place k none = none
in_place k (some task) = some (k, task)

abbrev pub fixed_or : {T : Type 0} → (T → RpcAction) → Option RpcAction → T → RpcAction
fixed_or ask (some a) task = a
fixed_or ask none task = ask task

abbrev pub arm_fixed : Option Arm → Option RpcAction
arm_fixed none = none
arm_fixed (some a) = a.fixed

-- The generated impls, over those of the inner types.
unfoldable pub enum_impl :
    {T E C O N : Type 0} → List Arm → ClientTaskImpl T E C O N → ClientTaskImpl (ℕ × T) E C O N
enum_impl arms inner = record {
  encode_req = λ t codec buf. inner.encode_req t.1 codec buf;
  get_req_blob = λ t. inner.get_req_blob t.1;
  decode_resp = λ t codec buffer. in_place t.0 (inner.decode_resp t.1 codec buffer);
  reserve_resp_blob = λ t size. in_place t.0 (inner.reserve_resp_blob t.1 size);
  get_action = λ t. fixed_or inner.get_action (arm_fixed (get_elem? arms t.0)) t.1;
  get_result = λ t. inner.get_result t.1;
  set_custom_error = λ t codec res. (t.0, inner.set_custom_error t.1 codec res);
  set_rpc_error = λ t e. (t.0, inner.set_rpc_error t.1 e);
  set_ok = λ t. (t.0, inner.set_ok t.1);
  done = λ t. inner.done t.1;
  seq = λ t. inner.seq t.1;
}
