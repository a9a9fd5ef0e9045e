-- ===== src/Macros/Actions.antt =====
-- The arguments of the attribute `#[action(...)]` of stream/macros/src, and the action that each stands
-- for. An integer literal is given with its value if it is an i32, and a path with the value that
-- `as i32` gives it.
use occams_rpc.Base.{ℕ, ◌≡◌, ap, Bool, true, false, Option, none, some, List, ◌==◌, arith}
use occams_rpc.Base.Int.{ℤ, pos, negsuc}
use occams_rpc.Error.Text.{bytes_eq, bytes_eq_refl, bytes_eq_sound}
use occams_rpc.Proto.{RpcAction, num_action, str}

-- `NestedMeta`, as the macros match on it.
pub data NestedMeta : Type 0 where
  lit_str : List ℕ → NestedMeta
  lit_int : Option ℤ → NestedMeta
  meta_path : ℤ → NestedMeta
  other_lit other_meta : NestedMeta

-- An attribute: an `#[action(...)]` with its list, one that is no list, or one of another name.
pub data Attribute : Type 0 where
  action_list : List NestedMeta → Attribute
  action_other : Attribute
  other_attr : Attribute

-- A variant of an enum: the attributes, and the text of the one type that it holds; of any other form
-- it has none.
pub record Variant : Type 0 where
  pub attrs : List Attribute
  pub inner_type : Option (List ℕ)

abbrev pub int_action : Option ℤ → Option RpcAction
int_action none = none
int_action (some z) = some (num_action z)

-- The action that an argument stands for; none is a panic.
abbrev pub action_value : NestedMeta → Option RpcAction
action_value (lit_str s) = some (str s)
action_value (lit_int i) = int_action i
action_value (meta_path z) = some (num_action z)
action_value other_lit = none
action_value other_meta = none

-- Whether a pattern of an arm takes an action.
abbrev pub int_eq : ℤ → ℤ → Bool
int_eq (pos a) (pos b) = a == b
int_eq (negsuc a) (negsuc b) = a == b
int_eq (pos a) (negsuc b) = false
int_eq (negsuc a) (pos b) = false

abbrev pub action_eq : RpcAction → RpcAction → Bool
action_eq (num_action a) (num_action b) = int_eq a b
action_eq (str a) (str b) = bytes_eq a b
action_eq (num_action a) (str b) = false
action_eq (str a) (num_action b) = false

pub action_eq_sound : (a b : RpcAction) → action_eq a b ≡ true → a ≡ b
action_eq_sound (num_action (pos a)) (num_action (pos b)) h = ground arith
action_eq_sound (num_action (negsuc a)) (num_action (negsuc b)) h = ground arith
action_eq_sound (num_action (pos a)) (num_action (negsuc b)) h = absurd (ground arith)
action_eq_sound (num_action (negsuc a)) (num_action (pos b)) h = absurd (ground arith)
action_eq_sound (str a) (str b) h = ap str (bytes_eq_sound a b h)
action_eq_sound (num_action a) (str b) h = absurd (ground arith)
action_eq_sound (str a) (num_action b) h = absurd (ground arith)

pub action_eq_refl : (a : RpcAction) → action_eq a a ≡ true
action_eq_refl (num_action (pos n)) = ground arith
action_eq_refl (num_action (negsuc n)) = ground arith
action_eq_refl (str s) = bytes_eq_refl s

-- Whether an argument stands for this action, by what is written there.
abbrev pub stands_for : RpcAction → NestedMeta → Bool
stands_for action (lit_str s) = action_eq (str s) action
stands_for action (lit_int (some z)) = action_eq (num_action z) action
stands_for action (lit_int none) = false
stands_for action (meta_path z) = action_eq (num_action z) action
stands_for action other_lit = false
stands_for action other_meta = false
