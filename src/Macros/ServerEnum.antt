-- ===== src/Macros/ServerEnum.antt =====
-- `#[server_task_enum]` (stream/macros/src/server_task_enum.rs): the enum that it accepts, and the
-- generated decode_req, get_action, encode_resp and _set_result. A value of the enum is the place of
-- its variant with the task inside. What the inner types do is a parameter.
pub mod Routes
use occams_rpc.Base.{
  ℕ, zero, suc, Bool, true, false, Option, none, some, List, [], ◌∷◌, ◌||◌, ◌&&◌, not,
  if◌then◌else◌, get_elem?,
}
use occams_rpc.Base.Result.{Result, ok, err}
use occams_rpc.Error.Text.{bytes_eq}
use occams_rpc.Proto.{RpcAction}
use occams_rpc.Macros.Actions.{
  NestedMeta, Attribute, action_list, action_other, other_attr, Variant, action_value, action_eq,
}

-- `ServerTaskEnumAttrs`; the types are opaque.
pub record EnumAttrs : Type 0 where
  pub req : Bool
  pub resp : Bool
  pub resp_type : Option (List ℕ)
  pub error : List ℕ

-- An argument of the attribute.
pub data EnumArg : Type 0 where
  req_arg resp_arg : EnumArg
  resp_type_arg : List ℕ → EnumArg
  error_arg : List ℕ → EnumArg
  unexpected : EnumArg

-- What the loop of `parse` has read so far.
pub record Parsed : Type 0 where
  pub req : Bool
  pub resp : Bool
  pub resp_type : Option (List ℕ)
  pub error : Option (List ℕ)

abbrev pub nothing_parsed : Parsed
nothing_parsed = record { req = false; resp = false; resp_type = none; error = none }

-- The arguments in their order; the last of a name counts.
abbrev pub parse_args : List EnumArg → Parsed → Option Parsed
parse_args [] p = some p
parse_args (req_arg ∷ as') p = parse_args as' (record p { req = true })
parse_args (resp_arg ∷ as') p = parse_args as' (record p { resp = true })
parse_args (resp_type_arg t ∷ as') p = parse_args as' (record p { resp_type = some t })
parse_args (error_arg e ∷ as') p = parse_args as' (record p { error = some e })
parse_args (unexpected ∷ as') p = none

-- `error.ok_or_else`
abbrev pub with_error : Parsed → Option (List ℕ) → Option EnumAttrs
with_error p none = none
with_error p (some e) =
    some (record { req = p.req; resp = p.resp; resp_type = p.resp_type; error = e })

abbrev pub parsed_attrs : Option Parsed → Option EnumAttrs
parsed_attrs none = none
parsed_attrs (some p) = with_error p p.error

-- `ServerTaskEnumAttrs::parse`; none is its error, with which the compilation ends.
unfoldable pub parse : List EnumArg → Option EnumAttrs
parse as' = parsed_attrs (parse_args as' nothing_parsed)

-- `resp_type`: that of the attribute, or the enum itself, which is given here by its name.
abbrev pub resp_type_of : List ℕ → Bool → Option (List ℕ) → Option (List ℕ)
resp_type_of enum_name true none = some enum_name
resp_type_of enum_name true (some t) = none
resp_type_of enum_name false none = none
resp_type_of enum_name false (some t) = some t

-- `get_action_attribute`: the first list of actions that is not empty.
abbrev pub get_action_attribute : List Attribute → List NestedMeta
get_action_attribute [] = []
get_action_attribute (action_list [] ∷ attrs) = get_action_attribute attrs
get_action_attribute (action_list (m ∷ ms) ∷ attrs) = m ∷ ms
get_action_attribute (action_other ∷ attrs) = get_action_attribute attrs
get_action_attribute (other_attr ∷ attrs) = get_action_attribute attrs

-- The arms of one variant: the actions that its arms of decode_req take, and its arm of get_action,
-- which gives one action, or asks the task inside.
pub record Arms : Type 0 where
  pub inner_type : List ℕ
  pub actions : List RpcAction
  pub fixed : Option RpcAction

abbrev pub push_action : Option RpcAction → Option (List RpcAction) → Option (List RpcAction)
push_action none rest = none
push_action (some a) none = none
push_action (some a) (some rest) = some (a ∷ rest)

abbrev pub action_values : List NestedMeta → Option (List RpcAction)
action_values [] = some []
action_values (m ∷ ms) = push_action (action_value m) (action_values ms)

-- Of one action the arm gives that action, of more it asks the task; none is refused.
abbrev pub arms_of : List ℕ → Option (List RpcAction) → Option Arms
arms_of ty none = none
arms_of ty (some []) = none
arms_of ty (some (a ∷ [])) = some (record { inner_type = ty; actions = a ∷ []; fixed = some a })
arms_of ty (some (a ∷ b ∷ as')) =
    some (record { inner_type = ty; actions = a ∷ b ∷ as'; fixed = none })

-- Without `req` no arm of decode_req or get_action is made.
abbrev pub req_arms : Bool → List ℕ → List Attribute → Option Arms
req_arms true ty attrs = arms_of ty (action_values (get_action_attribute attrs))
req_arms false ty attrs = some (record { inner_type = ty; actions = []; fixed = none })

abbrev pub variant_arms : Bool → List Attribute → Option (List ℕ) → Option Arms
variant_arms has_req attrs none = none
variant_arms has_req attrs (some ty) = req_arms has_req ty attrs

-- Whether an earlier variant holds this type, by its text (`inner_type_counts`).
abbrev pub holds_type : List ℕ → List Arms → Bool
holds_type ty [] = false
holds_type ty (a ∷ as') = bytes_eq a.inner_type ty || holds_type ty as'

-- A sub-type that stands twice is a panic, as `From` could not be made for it.
abbrev pub push_arms : Option Arms → Option (List Arms) → Option (List Arms)
push_arms none rest = none
push_arms (some a) none = none
push_arms (some a) (some rest) = if holds_type a.inner_type rest then none else some (a ∷ rest)

abbrev pub enum_arms : Bool → List Variant → Option (List Arms)
enum_arms has_req [] = some []
enum_arms has_req (v ∷ vs) =
    push_arms (variant_arms has_req v.attrs v.inner_type) (enum_arms has_req vs)

-- The enum, with what is generated for it.
pub record ServerEnum : Type 0 where
  pub attrs : EnumAttrs
  pub resp_type : List ℕ
  pub arms : List Arms

abbrev pub expanded_arms : EnumAttrs → Option (List ℕ) → Option (List Arms) → Option ServerEnum
expanded_arms attrs none arms = none
expanded_arms attrs (some t) none = none
expanded_arms attrs (some t) (some arms) =
    some (record { attrs = attrs; resp_type = t; arms = arms })

abbrev pub expanded_enum : List ℕ → List Variant → Option EnumAttrs → Option ServerEnum
expanded_enum enum_name vs none = none
expanded_enum enum_name vs (some attrs) =
    expanded_arms attrs (resp_type_of enum_name attrs.resp attrs.resp_type) (enum_arms attrs.req vs)

-- `server_task_enum_impl`
unfoldable pub server_task_enum_impl : List EnumArg → List ℕ → List Variant → Option ServerEnum
unfolding parse
server_task_enum_impl as' enum_name vs = expanded_enum enum_name vs (parse as')

-- What the inner types do: Q is what comes with a request beside its action, N a `RespNoti`.
pub record Inner (T E O N Q : Type 0) : Type 0 where
  pub decode_req : List ℕ → RpcAction → Q → Result {0, 0} (Unit {0}) T
  pub get_action : T → RpcAction
  pub encode_resp : T → O
  pub set_result : Result {0, 0} E (Unit {0}) → T → Option (N × T)

module _ {T E O N Q : Type 0} (inner : Inner T E O N Q) where
  abbrev pub takes : RpcAction → List RpcAction → Bool
  takes a [] = false
  takes a (b ∷ bs) = action_eq b a || takes a bs

  abbrev pub in_variant : ℕ → Result {0, 0} (Unit {0}) T → Result {0, 0} (Unit {0}) (ℕ × T)
  in_variant k (ok task) = ok (k, task)
  in_variant k (err u) = err u

  -- The arms of decode_req in the order of the variants, and the last one.
  abbrev pub decode_arms : ℕ → List Arms → RpcAction → Q → Result {0, 0} (Unit {0}) (ℕ × T)
  decode_arms k [] action q = err tt
  decode_arms k (a ∷ as') action q =
      let rest = decode_arms (suc k) as' action q in
      if takes action a.actions then in_variant k (inner.decode_req a.inner_type action q) else rest

  -- `decode_req`
  unfoldable pub decode_req : ServerEnum → RpcAction → Q → Result {0, 0} (Unit {0}) (ℕ × T)
  decode_req e action q = decode_arms 0 e.arms action q

  abbrev pub fixed_or : Option RpcAction → T → RpcAction
  fixed_or (some a) task = a
  fixed_or none task = inner.get_action task

  abbrev pub arm_action : Option Arms → T → Option RpcAction
  arm_action none task = none
  arm_action (some a) task = some (fixed_or a.fixed task)

  -- `get_action`; none for a variant that the enum does not have.
  unfoldable pub get_action : ServerEnum → ℕ × T → Option RpcAction
  get_action e (k, task) = arm_action (get_elem? e.arms k) task

  -- `encode_resp`
  abbrev pub encode_resp : ℕ × T → O
  encode_resp (k, task) = inner.encode_resp task

  abbrev pub kept_variant : ℕ → Option (N × T) → Option (N × (ℕ × T))
  kept_variant k none = none
  kept_variant k (some (noti, task)) = some (noti, (k, task))

  -- `_set_result`
  abbrev pub set_result : Result {0, 0} E (Unit {0}) → ℕ × T → Option (N × (ℕ × T))
  set_result res (k, task) = kept_variant k (inner.set_result res task)
