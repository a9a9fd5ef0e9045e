-- ===== src/Macros/ClientEnum/Arms.antt =====
-- Which enums `#[client_task_enum]` accepts (stream/macros/src/client_task_enum.rs), and the action of
-- a task of one.
use occams_rpc.Base.{
  ℕ, zero, suc, ◌≡◌, ◌≢◌, refl, sym, ap, subst, ◌∙◌, false, Bool-cases, inl, inr, Option, none,
  some, some-injective, List, [], ◌∷◌, arith, if◌then◌else◌, get_elem?,
}
use occams_rpc.Error.Text.{bytes_eq, bytes_eq_refl}
use occams_rpc.Proto.{RpcAction, num_action, str}
use occams_rpc.Macros.Actions.{
  lit_str, lit_int, meta_path, other_lit, other_meta, Attribute, action_list, action_other,
  other_attr, Variant,
}
use occams_rpc.Macros.ClientEnum.{
  get_action_attribute, action_arm, Arm, arm_with, seen_before, push_arm, checked_arm, also_seen,
  enum_arms, client_task_enum_impl, ClientTaskImpl, fixed_or, arm_fixed, enum_impl,
}

-- The action that the attributes of a variant give: that of the first `#[action(...)]` that begins with
-- a literal or a path, a literal standing there alone; or without one that of the task inside.
abbrev pub attribute_action : {T : Type 0} → (T → RpcAction) → List Attribute → T → Option RpcAction
attribute_action ask [] task = some (ask task)
attribute_action ask (action_list [] ∷ attrs) task = attribute_action ask attrs task
attribute_action ask (action_list (other_meta ∷ ms) ∷ attrs) task = attribute_action ask attrs task
attribute_action ask (action_list (meta_path z ∷ ms) ∷ attrs) task = some (num_action z)
attribute_action ask (action_list (lit_str s ∷ []) ∷ attrs) task = some (str s)
attribute_action ask (action_list (lit_str s ∷ n ∷ ms) ∷ attrs) task = none
attribute_action ask (action_list (lit_int (some z) ∷ []) ∷ attrs) task = some (num_action z)
attribute_action ask (action_list (lit_int none ∷ []) ∷ attrs) task = none
attribute_action ask (action_list (lit_int i ∷ n ∷ ms) ∷ attrs) task = none
attribute_action ask (action_list (other_lit ∷ ms) ∷ attrs) task = none
attribute_action ask (action_other ∷ attrs) task = attribute_action ask attrs task
attribute_action ask (other_attr ∷ attrs) task = attribute_action ask attrs task

push_arm-some :
    (a : Option Arm) (rest : Option (List Arm)) (as' : List Arm)
    → push_arm a rest ≡ some as'
    → (b : Arm) × (bs : List Arm) × (a ≡ some b) × (rest ≡ some bs) × (as' ≡ b ∷ bs)
push_arm-some none rest as' e = absurd (ground arith)
push_arm-some (some b) none as' e = absurd (ground arith)
push_arm-some (some b) (some bs) as' e = (b, bs, refl, refl, sym (some-injective _ _ e))

arm_with-some :
    (ty : List ℕ) (o : Option (Option RpcAction)) (a : Arm)
    → arm_with ty o ≡ some a
    → (a.inner_type ≡ ty) × (o ≡ some a.fixed)
arm_with-some ty none a e = absurd (ground arith)
arm_with-some ty (some f) a e =
    subst (λ x. (x.inner_type ≡ ty) × (some f ≡ some x.fixed)) (some-injective _ _ e) (refl, refl)

-- The variant's type is new, and its arm is made of the attribute.
abbrev IsArmOf : List (List ℕ) → Variant → Arm → Type 0
IsArmOf seen v a =
    (v.inner_type ≡ some a.inner_type)
    × (seen_before a.inner_type seen ≡ false)
    × (action_arm (get_action_attribute v.attrs) ≡ some a.fixed)

checked_arm-IsArmOf :
    (seen : List (List ℕ)) (attrs : List Attribute) (t : Option (List ℕ)) (a : Arm)
    → checked_arm seen attrs t ≡ some a
    → IsArmOf seen (record { attrs = attrs; inner_type = t }) a
checked_arm-IsArmOf seen attrs none a e = absurd (ground arith)
checked_arm-IsArmOf seen attrs (some ty) a e = elim (Bool-cases (seen_before ty seen)) [
  | inl b ↦ absurd (ground (arith, b, e))
  | inr b ↦
      let made = arm_with ty (action_arm (get_action_attribute attrs)) in
      let (t, f) =
        arm_with-some ty (action_arm (get_action_attribute attrs)) a
          (ap (λ c. if c then none else made) (sym b) ∙ e) in
      (ap some (sym t), ap (λ x. seen_before x seen) t ∙ b, f)
]

not_seen :
    (t u : List ℕ) (seen : List (List ℕ))
    → seen_before u (t ∷ seen) ≡ false
    → (bytes_eq t u ≡ false) × (seen_before u seen ≡ false)
not_seen t u seen e = (ground arith, ground arith)

-- At this place stands an arm that is made of the variant.
abbrev ArmAt : List Arm → ℕ → Variant → Type 0
ArmAt arms k v =
    (a : Arm) × (get_elem? arms k ≡ some a)
    × (v.inner_type ≡ some a.inner_type)
    × (action_arm (get_action_attribute v.attrs) ≡ some a.fixed)

enum_arms-ArmAt :
    (seen : List (List ℕ)) (vs : List Variant) (arms : List Arm) (k : ℕ) (v : Variant)
    → enum_arms seen vs ≡ some arms
    → get_elem? vs k ≡ some v
    → (at' : ArmAt arms k v) × (seen_before at'.0.inner_type seen ≡ false)
enum_arms-ArmAt seen [] arms k v e g = absurd (ground arith)
enum_arms-ArmAt seen (w ∷ vs) arms zero v e g =
    let (a, rest, f, r, s) =
      push_arm-some (checked_arm seen w.attrs w.inner_type)
        (enum_arms (also_seen w.inner_type seen) vs) arms e in
    let (t, n, x) = checked_arm-IsArmOf seen w.attrs w.inner_type a f in
    let same = some-injective _ _ g in
    (
      (
        a,
        ap (λ as'. get_elem? as' zero) s,
        ap (λ (y : Variant). y.inner_type) (sym same) ∙ t,
        ap (λ (y : Variant). action_arm (get_action_attribute y.attrs)) (sym same) ∙ x,
      ),
      n,
    )
enum_arms-ArmAt seen (w ∷ vs) arms (suc k) v e g =
    let (a, rest, f, r, s) =
      push_arm-some (checked_arm seen w.attrs w.inner_type)
        (enum_arms (also_seen w.inner_type seen) vs) arms e in
    let (t, m, x) = checked_arm-IsArmOf seen w.attrs w.inner_type a f in
    let ((b, h, y, z), n) = enum_arms-ArmAt (also_seen w.inner_type seen) vs rest k v r g in
    (
      (b, ap (λ as'. get_elem? as' (suc k)) s ∙ h, y, z),
      (not_seen a.inner_type b.inner_type seen
          (ap (λ o. seen_before b.inner_type (also_seen o seen)) (sym t) ∙ n)).1,
    )

-- The type of a variant is not that of a later one.
later-ne :
    (seen : List (List ℕ)) (v : Variant) (vs : List Variant) (arms : List Arm) (k : ℕ) (w : Variant)
    → enum_arms seen (v ∷ vs) ≡ some arms
    → get_elem? vs k ≡ some w
    → v.inner_type ≢ w.inner_type
later-ne seen v vs arms k w e g same =
    let (a, rest, f, r, s) =
      push_arm-some (checked_arm seen v.attrs v.inner_type)
        (enum_arms (also_seen v.inner_type seen) vs) arms e in
    let t = (checked_arm-IsArmOf seen v.attrs v.inner_type a f).0 in
    let ((b, h, y, z), n) = enum_arms-ArmAt (also_seen v.inner_type seen) vs rest k w r g in
    let ne =
      (not_seen a.inner_type b.inner_type seen
        (ap (λ o. seen_before b.inner_type (also_seen o seen)) (sym t) ∙ n)).0 in
    let eq : a.inner_type ≡ b.inner_type = some-injective _ _ (sym t ∙ same ∙ y) in
    let yes' = ap (λ x. bytes_eq x b.inner_type) eq ∙ bytes_eq_refl b.inner_type in
    absurd (ground (arith, ne, yes'))

enum_arms-distinct :
    (seen : List (List ℕ)) (vs : List Variant) (arms : List Arm) (j k : ℕ) (v w : Variant)
    → enum_arms seen vs ≡ some arms
    → get_elem? vs j ≡ some v
    → get_elem? vs k ≡ some w
    → v.inner_type ≡ w.inner_type
    → j ≡ k
enum_arms-distinct seen [] arms j k v w e g h s = absurd (ground arith)
enum_arms-distinct seen (u ∷ vs) arms zero zero v w e g h s = refl
enum_arms-distinct seen (u ∷ vs) arms zero (suc k) v w e g h s = absurd (
    later-ne seen u vs arms k w e h (ap (λ (y : Variant). y.inner_type) (some-injective _ _ g) ∙ s))
enum_arms-distinct seen (u ∷ vs) arms (suc j) zero v w e g h s = absurd (
    later-ne seen u vs arms j v e g
      (ap (λ (y : Variant). y.inner_type) (some-injective _ _ h) ∙ sym s))
enum_arms-distinct seen (u ∷ vs) arms (suc j) (suc k) v w e g h s =
    let (a, rest, f, r, t) =
      push_arm-some (checked_arm seen u.attrs u.inner_type)
        (enum_arms (also_seen u.inner_type seen) vs) arms e in
    ap suc (enum_arms-distinct (also_seen u.inner_type seen) vs rest j k v w r g h s)

fixed-attribute :
    {T : Type 0} (ask : T → RpcAction) (attrs : List Attribute) (f : Option RpcAction) (task : T)
    → action_arm (get_action_attribute attrs) ≡ some f
    → attribute_action ask attrs task ≡ some (fixed_or ask f task)
fixed-attribute ask [] f task e = ap (λ x. some (fixed_or ask x task)) (some-injective _ _ e)
fixed-attribute ask (action_list [] ∷ attrs) f task e = fixed-attribute ask attrs f task e
fixed-attribute ask (action_list (other_meta ∷ ms) ∷ attrs) f task e =
    fixed-attribute ask attrs f task e
fixed-attribute ask (action_list (meta_path z ∷ ms) ∷ attrs) f task e =
    ap (λ x. some (fixed_or ask x task)) (some-injective _ _ e)
fixed-attribute ask (action_list (lit_str s ∷ []) ∷ attrs) f task e =
    ap (λ x. some (fixed_or ask x task)) (some-injective _ _ e)
fixed-attribute ask (action_list (lit_int (some z) ∷ []) ∷ attrs) f task e =
    ap (λ x. some (fixed_or ask x task)) (some-injective _ _ e)
fixed-attribute ask (action_list (lit_str s ∷ n ∷ ms) ∷ attrs) f task e = absurd (ground arith)
fixed-attribute ask (action_list (lit_int none ∷ []) ∷ attrs) f task e = absurd (ground arith)
fixed-attribute ask (action_list (lit_int i ∷ n ∷ ms) ∷ attrs) f task e = absurd (ground arith)
fixed-attribute ask (action_list (other_lit ∷ []) ∷ attrs) f task e = absurd (ground arith)
fixed-attribute ask (action_list (other_lit ∷ n ∷ ms) ∷ attrs) f task e = absurd (ground arith)
fixed-attribute ask (action_other ∷ attrs) f task e = fixed-attribute ask attrs f task e
fixed-attribute ask (other_attr ∷ attrs) f task e = fixed-attribute ask attrs f task e

module _ {T E C O N : Type 0} (inner : ClientTaskImpl T E C O N) (error_type : Option (List ℕ))
    (vs : List Variant) (arms : List Arm) where
  accepted-arms :
      (o : Option (List ℕ)) → client_task_enum_impl o vs ≡ some arms → enum_arms [] vs ≡ some arms
  unfolding client_task_enum_impl
  accepted-arms none e = absurd (ground arith)
  accepted-arms (some ty) e = e

  -- In an enum that `#[client_task_enum]` accepts, no two variants hold the same type, so that `From`
  -- finds one; and the action of a task is the one that is written in the first `#[action(...)]` of its
  -- variant that begins with a literal or a path, also where the task inside has another, or without
  -- such an attribute that of the task inside.
  pub client_task_enum_impl_lem :
      client_task_enum_impl error_type vs ≡ some arms
      → (k : ℕ) (v : Variant) → get_elem? vs k ≡ some v
      → ((task : T)
          → attribute_action inner.get_action v.attrs task
            ≡ some ((enum_impl arms inner).get_action (k, task)))
        × ((j : ℕ) (w : Variant) → get_elem? vs j ≡ some w → w.inner_type ≡ v.inner_type → j ≡ k)
  unfolding enum_impl
  client_task_enum_impl_lem e k v g =
      let made = accepted-arms error_type e in
      let (a, h, t, x) = (enum_arms-ArmAt [] vs arms k v made g).0 in
      (
        λ task.
            fixed-attribute inner.get_action v.attrs a.fixed task x
            ∙ ap (λ o. some (fixed_or inner.get_action (arm_fixed o) task)) (sym h),
        λ j w i s. enum_arms-distinct [] vs arms j k w v made i g s,
      )
