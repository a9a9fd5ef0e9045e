-- ===== src/Macros/Endpoint/Accepts.antt =====
-- Which traits `#[endpoint_async]` accepts (macros/src/endpoint_async.rs): the form of their methods.
use occams_rpc.Base.{ℕ, ◌≡◌, ◌⊎◌, Bool, Option, none, some, List, [], ◌∷◌, ◌++◌, length}
use occams_rpc.Error.Text.{codes}
use occams_rpc.Macros.Syntax.{
  SynType, path, Segments, PathArguments, angle_bracketed, Args, no_arg, arg, GenericArgument,
  type_arg, last_segment, get_result_type_from_future, FnArg, receiver, typed_ident, typed_pat,
  Method, Item, method, other_item,
}
use occams_rpc.Macros.Endpoint.{Form, async_fn, async_block, Generated}
use occams_rpc.Macros.Endpoint.Names.{Has}

-- A path whose last segment has this name.
abbrev pub EndsIn : List ℕ → Segments → Type 0
EndsIn name p = (as' : PathArguments) × (last_segment p ≡ some (name, as'))

-- `Result<_, RpcError<_>>`, also behind other segments.
abbrev pub IsResult : SynType → Type 0
IsResult ty =
    (b : Bool) × (p : Segments) × (a : GenericArgument) × (c : Bool) × (q : Segments) × (ty
      ≡ path b p)
    × (last_segment p
        ≡ some (codes "Result", angle_bracketed (arg a (arg (type_arg (path c q)) no_arg))))
    × EndsIn (codes "RpcError") q

-- The method returns such a result, or an `impl Future` of it.
abbrev pub Returns : Option SynType → Type 0
Returns none = ⊥
Returns (some ty) =
    ((get_result_type_from_future ty ≡ none) × IsResult ty)
    ⊎ ((o : SynType) × (get_result_type_from_future ty ≡ some o) × IsResult o)

-- It takes two arguments, the receiver counted: what the first one is, and whether the method is
-- `async`, is not looked at.
abbrev pub IsEndpoint : Method → Type 0
IsEndpoint m = (length m.inputs ≡ 2) × Returns m.output

-- The second of two arguments is the path of an RpcError.
abbrev HasError : Args → Type 0
HasError as' =
    (a : GenericArgument) × (c : Bool) × (q : Segments) × (as'
      ≡ arg a (arg (type_arg (path c q)) no_arg))
    × EndsIn (codes "RpcError") q

-- The name of the argument beside the receiver, if it is a plain name.
abbrev pub second_arg : List FnArg → Option (List ℕ)
second_arg [] = none
second_arg (a ∷ []) = none
second_arg (a ∷ typed_ident i ty ∷ as') = some i
second_arg (a ∷ typed_pat ty ∷ as') = none
second_arg (a ∷ receiver ∷ as') = none

-- A method that returns an `impl Future` of something is a function with an `async move` block, any
-- other is an `async fn`.
abbrev pub FormOf : Option SynType → Form → Type 0
FormOf none form = form ≡ async_fn
FormOf (some ty) form = form ≡ async_block

abbrev pub IsForm : Option SynType → Form → Type 0
IsForm none form = form ≡ async_fn
IsForm (some ty) form = FormOf (get_result_type_from_future ty) form

-- The client's methods are those of the trait, in its order, each in its form and under its name; or
-- some method has not the form of an endpoint.
abbrev pub Describes : List ℕ → List Item → List Generated → Type 0
Describes trait_name [] [] = Unit {0}
Describes trait_name [] (g ∷ gs) = ⊥
Describes trait_name (other_item ∷ items) gs = Describes trait_name items gs
Describes trait_name (method m ∷ items) [] = ⊥
Describes trait_name (method m ∷ items) (g ∷ gs) =
    IsEndpoint m
    × (g.ident ≡ m.ident)
    × (g.arg_name ≡ second_arg m.inputs)
    × IsForm m.output g.form
    × (g.service_method ≡ trait_name ++ (46 ∷ m.ident))
    × Describes trait_name items gs

abbrev pub Generates : List ℕ → List Item → Option (List Generated) → Type 0
Generates trait_name items none = (m : Method) × Has (method m) items × (IsEndpoint m → ⊥)
Generates trait_name items (some gs) = Describes trait_name items gs

abbrev GeneratesOne : List ℕ → Method → Option Generated → Type 0
GeneratesOne trait_name m none = IsEndpoint m → ⊥
GeneratesOne trait_name m (some g) =
    IsEndpoint m
    × (g.ident ≡ m.ident)
    × (g.arg_name ≡ second_arg m.inputs)
    × IsForm m.output g.form
    × (g.service_method ≡ trait_name ++ (46 ∷ m.ident))

abbrev InputsOf : List FnArg → Option (Option (List ℕ)) → Type 0
InputsOf as' none = length as' ≡ 2 → ⊥
InputsOf as' (some a) = (length as' ≡ 2) × (a ≡ second_arg as')
