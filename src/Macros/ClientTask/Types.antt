-- ===== src/Macros/ClientTask/Types.antt =====
-- The types that `#[client_task]` reads from the fields of a struct (stream/macros/src/client_task.rs).
use occams_rpc.Base.{ℕ, Bool, true, false, Option, none, some, List, ◌&&◌, if◌then◌else◌}
use occams_rpc.Error.Text.{codes, bytes_eq}
use occams_rpc.Macros.Syntax.{
  SynType, path, impl_trait, tuple, other, Segments, no_segment, segment, PathArguments,
  angle_bracketed, no_args, no_arg, arg, type_arg, binding, other_arg, last_segment,
}

-- One argument, which is a type.
abbrev pub one_type : PathArguments → Bool
one_type (angle_bracketed (arg (type_arg ty) no_arg)) = true
one_type (angle_bracketed (arg (type_arg ty) (arg a as'))) = false
one_type (angle_bracketed (arg (binding i ty) as')) = false
one_type (angle_bracketed (arg other_arg as')) = false
one_type (angle_bracketed no_arg) = false
one_type no_args = false

abbrev pub is_option : Segments → Bool
is_option (segment i a no_segment) = bytes_eq i (codes "Option") && one_type a
is_option (segment i a (segment j b ss)) = false
is_option no_segment = false

-- `check_option_inner_type`: `Option<T>`, with no other segment before it.
abbrev pub check_option_inner_type : SynType → Bool
check_option_inner_type (path true p) = false
check_option_inner_type (path false p) = is_option p
check_option_inner_type (impl_trait bs) = false
check_option_inner_type (tuple ts) = false
check_option_inner_type other = false

-- The last segment of a path, if it has this name.
abbrev pub if_named : List ℕ → Option (List ℕ × PathArguments) → Option PathArguments
if_named name none = none
if_named name (some (i, as')) = if bytes_eq i name then some as' else none

abbrev pub named_args : List ℕ → SynType → Option PathArguments
named_args name (path c p) = if_named name (last_segment p)
named_args name (impl_trait bs) = none
named_args name (tuple ts) = none
named_args name other = none

-- The first argument, if it is a type.
abbrev pub first_type : PathArguments → Option SynType
first_type (angle_bracketed (arg (type_arg ty) as')) = some ty
first_type (angle_bracketed (arg (binding i ty) as')) = none
first_type (angle_bracketed (arg other_arg as')) = none
first_type (angle_bracketed no_arg) = none
first_type no_args = none

-- Of `Result<(), T>` the T.
abbrev pub unit_result_error : PathArguments → Option SynType
unit_result_error (angle_bracketed (arg (type_arg (tuple no_arg)) (arg (type_arg ty) no_arg))) =
    some ty
unit_result_error as' = none

abbrev pub and_then : {A B : Type 0} → Option A → (A → Option B) → Option B
and_then none f = none
and_then (some a) f = f a

-- The type in a path of this name.
abbrev pub inner_of : List ℕ → SynType → Option SynType
inner_of name ty = and_then (named_args name ty) first_type

-- `error_type`: the E of `Option<Result<(), RpcError<E>>>`; none is a panic.
abbrev pub res_error_type : SynType → Option SynType
res_error_type ty = and_then (inner_of (codes "Option") ty) λ result.
    and_then (named_args (codes "Result") result)
      λ as'. and_then (unit_result_error as') (inner_of (codes "RpcError"))

-- `noti_inner_type`: the T of `Option<MTx<T>>`.
abbrev pub noti_inner_type : SynType → Option SynType
noti_inner_type ty = and_then (inner_of (codes "Option") ty) (inner_of (codes "MTx"))
