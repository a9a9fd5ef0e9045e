-- ===== src/Macros/Endpoint.antt =====
-- `#[endpoint_async]` (macros/src/endpoint_async.rs): the methods of the client that it makes of a trait.
-- Each sends its argument under the name of the trait and of the method.
pub mod Names
pub mod Accepts
use occams_rpc.Base.{ℕ, Bool, true, false, Option, none, some, List, [], ◌∷◌, ◌++◌, if◌then◌else◌}
use occams_rpc.Macros.Syntax.{
  SynType, FnArg, receiver, typed_ident, typed_pat, Method, Item, method, other_item,
  check_return_type, returns_impl_future,
}

-- How a generated method is written: an `async fn`, or a function that gives an `async move` block.
pub data Form : Type 0 where
  async_fn async_block : Form

-- A generated method; of one without an argument `&()` is sent.
pub record Generated : Type 0 where
  pub ident : List ℕ
  pub arg_name : Option (List ℕ)
  pub form : Form
  pub service_method : List ℕ

-- `format!("{}.{}", trait_name, method_name)`
abbrev pub service_method_of : List ℕ → List ℕ → List ℕ
service_method_of trait_name method_name = trait_name ++ (46 ∷ method_name)

abbrev pub arg_of : FnArg → Option (List ℕ)
arg_of receiver = none
arg_of (typed_ident i ty) = some i
arg_of (typed_pat ty) = none

-- The argument beside `&self`; none stands for the panic of a method that has none, or more than one.
abbrev pub parse_inputs : List FnArg → Option (Option (List ℕ))
parse_inputs [] = none
parse_inputs (a ∷ []) = none
parse_inputs (a ∷ b ∷ []) = some (arg_of b)
parse_inputs (a ∷ b ∷ c ∷ as') = none

-- A function that gives a future keeps its form; any other becomes an `async fn`.
abbrev pub form_of : Bool → Form
form_of true = async_block
form_of false = async_fn

abbrev pub generated : List ℕ → Method → Option (List ℕ) → Option Generated
generated trait_name m arg =
    if check_return_type m.output (returns_impl_future m.output)
    then some (record {
      ident = m.ident;
      arg_name = arg;
      form = form_of (returns_impl_future m.output);
      service_method = service_method_of trait_name m.ident;
    })
    else none

abbrev pub generate_parsed : List ℕ → Method → Option (Option (List ℕ)) → Option Generated
generate_parsed trait_name m none = none
generate_parsed trait_name m (some arg) = generated trait_name m arg

-- The loop over one method.
abbrev pub generate_method : List ℕ → Method → Option Generated
generate_method trait_name m = generate_parsed trait_name m (parse_inputs m.inputs)

abbrev pub push_method : Option Generated → Option (List Generated) → Option (List Generated)
push_method none gs = none
push_method (some g) none = none
push_method (some g) (some gs) = some (g ∷ gs)

-- `generate_trait_impl`: the methods of the client, in the order of the trait.
unfoldable pub generate_trait_impl : List ℕ → List Item → Option (List Generated)
generate_trait_impl trait_name [] = some []
generate_trait_impl trait_name (other_item ∷ items) = generate_trait_impl trait_name items
generate_trait_impl trait_name (method m ∷ items) =
    push_method (generate_method trait_name m) (generate_trait_impl trait_name items)
