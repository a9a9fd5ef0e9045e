-- ===== src/Macros/Syntax.antt =====
-- What the macros tell apart of Rust's syntax, and the tests on types that they share
-- (macros/src/endpoint_async.rs, macros/src/service.rs). The names are those of syn's trees; a tree that
-- no pattern of the macros names is `other`.
use occams_rpc.Base.{ℕ, Bool, true, false, Option, none, some, List}
use occams_rpc.Error.Text.{codes, bytes_eq}

-- A type; of a path, whether it begins with two colons. `Punctuated` lists have types of their own.
mutual
  pub data SynType : Type 0 where
    path : Bool → Segments → SynType
    impl_trait : Bounds → SynType
    tuple : Args → SynType
    other : SynType

  -- The segments of a path, each with its arguments.
  pub data Segments : Type 0 where
    no_segment : Segments
    segment : List ℕ → PathArguments → Segments → Segments

  pub data PathArguments : Type 0 where
    angle_bracketed : Args → PathArguments
    no_args : PathArguments

  -- Generic arguments; the members of a tuple are types only.
  pub data Args : Type 0 where
    no_arg : Args
    arg : GenericArgument → Args → Args

  pub data GenericArgument : Type 0 where
    type_arg : SynType → GenericArgument
    binding : List ℕ → SynType → GenericArgument
    other_arg : GenericArgument

  pub data Bounds : Type 0 where
    no_bound : Bounds
    trait_bound : Segments → Bounds → Bounds
    other_bound : Bounds → Bounds

-- `path.segments.last()`
abbrev pub last_from : List ℕ → PathArguments → Segments → List ℕ × PathArguments
last_from i a no_segment = (i, a)
last_from i a (segment j b ss) = last_from j b ss

abbrev pub last_segment : Segments → Option (List ℕ × PathArguments)
last_segment no_segment = none
last_segment (segment i a ss) = some (last_from i a ss)

-- The type that the first of the arguments binds to Output.
abbrev pub find_output : Args → Option SynType
find_output no_arg = none
find_output (arg (type_arg ty) as') = find_output as'
find_output (arg other_arg as') = find_output as'
find_output (arg (binding i ty) as') = elim (bytes_eq i (codes "Output")) [
  | true ↦ some ty
  | false ↦ find_output as'
]

abbrev pub output_of : List ℕ × PathArguments → Option SynType
output_of (i, no_args) = none
output_of (i, angle_bracketed as') = elim (bytes_eq i (codes "Future")) [
  | true ↦ find_output as'
  | false ↦ none
]

abbrev pub output_of_last : Option (List ℕ × PathArguments) → Option SynType
output_of_last none = none
output_of_last (some s) = output_of s

abbrev pub or_next : Option SynType → Option SynType → Option SynType
or_next (some ty) next = some ty
or_next none next = next

-- The output of the first bound that is a Future with one.
abbrev pub find_future : Bounds → Option SynType
find_future no_bound = none
find_future (other_bound bs) = find_future bs
find_future (trait_bound p bs) = or_next (output_of_last (last_segment p)) (find_future bs)

-- `get_result_type_from_future`
abbrev pub get_result_type_from_future : SynType → Option SynType
get_result_type_from_future (impl_trait bs) = find_future bs
get_result_type_from_future (path c p) = none
get_result_type_from_future (tuple ts) = none
get_result_type_from_future other = none

abbrev pub is_some : Option SynType → Bool
is_some none = false
is_some (some ty) = true

-- The test of the error type, the last segment of the second argument.
abbrev pub is_named : List ℕ → Option (List ℕ × PathArguments) → Bool
is_named name none = false
is_named name (some (i, as')) = bytes_eq i name

abbrev pub is_rpc_error : GenericArgument → Bool
is_rpc_error (type_arg (path c p)) = is_named (codes "RpcError") (last_segment p)
is_rpc_error (type_arg (impl_trait bs)) = false
is_rpc_error (type_arg (tuple ts)) = false
is_rpc_error (type_arg other) = false
is_rpc_error (binding i ty) = false
is_rpc_error other_arg = false

-- Two arguments, of which the second is the error.
abbrev pub result_args : Args → Bool
result_args no_arg = false
result_args (arg a no_arg) = false
result_args (arg a (arg b no_arg)) = is_rpc_error b
result_args (arg a (arg b (arg c as'))) = false

abbrev pub is_result : Option (List ℕ × PathArguments) → Bool
is_result none = false
is_result (some (i, no_args)) = false
is_result (some (i, angle_bracketed as')) = elim (bytes_eq i (codes "Result")) [
  | true ↦ result_args as'
  | false ↦ false
]

-- `check_result_type`
abbrev pub check_result_type : SynType → Bool
check_result_type (path c p) = is_result (last_segment p)
check_result_type (impl_trait bs) = false
check_result_type (tuple ts) = false
check_result_type other = false

abbrev pub check_output : Option SynType → Bool
check_output none = false
check_output (some ty) = check_result_type ty

-- `check_return_type`: a `ReturnType` is none if there is no arrow.
abbrev pub check_return_type : Option SynType → Bool → Bool
check_return_type none returns_impl_future = false
check_return_type (some ty) true = check_output (get_result_type_from_future ty)
check_return_type (some ty) false = check_result_type ty

-- `returns_impl_future`
abbrev pub returns_impl_future : Option SynType → Bool
returns_impl_future none = false
returns_impl_future (some ty) = is_some (get_result_type_from_future ty)

-- An argument of a method: `self`, a name with its type, or another pattern with its type.
pub data FnArg : Type 0 where
  receiver : FnArg
  typed_ident : List ℕ → SynType → FnArg
  typed_pat : SynType → FnArg

-- A method: its signature, and whether it is marked with `#[method]`.
pub record Method : Type 0 where
  pub ident : List ℕ
  pub asyncness : Bool
  pub inputs : List FnArg
  pub output : Option SynType
  pub marked : Bool

-- An item of a trait or an `impl`.
pub data Item : Type 0 where
  method : Method → Item
  other_item : Item
