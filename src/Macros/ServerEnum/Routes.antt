-- ===== src/Macros/ServerEnum/Routes.antt =====
-- Where the enum that `#[server_task_enum]` makes (stream/macros/src/server_task_enum.rs) takes a
-- request, by the `#[action(...)]` attributes that stand in the source.
use occams_rpc.Base.{
  ℕ, zero, suc, ◌+◌, ◌≡◌, ◌⊎◌, inl, inr, refl, sym, ap, ap₂, subst, ◌∙◌, Bool, true, false, ◌||◌,
  Bool-cases, Option, none, some, some-injective, List, [], ◌∷◌, arith, if◌then◌else◌, get_elem?,
}
use occams_rpc.Base.Result.{Result, ok, err}
use occams_rpc.Proto.{RpcAction}
use occams_rpc.Macros.Actions.{
  NestedMeta, lit_str, lit_int, meta_path, other_lit, other_meta, Attribute, action_list,
  action_other, other_attr, Variant, action_value, action_eq, action_eq_sound, stands_for,
}
use occams_rpc.Macros.ServerEnum.{
  EnumArg, EnumAttrs, Arms, ServerEnum, Inner, get_action_attribute, push_action, action_values,
  arms_of, variant_arms, holds_type, push_arms, enum_arms, parse, resp_type_of, expanded_arms,
  expanded_enum, server_task_enum_impl, takes, in_variant, decode_arms, decode_req, fixed_or,
  arm_action, get_action,
}

-- The value of an argument is this action.
abbrev value_is : RpcAction → Option RpcAction → Bool
value_is action none = false
value_is action (some b) = action_eq b action

abbrev pub names : RpcAction → List NestedMeta → Bool
names action [] = false
names action (m ∷ ms) = stands_for action m || names action ms

-- The first `#[action(...)]` that is not empty lists this action.
abbrev pub lists : RpcAction → List Attribute → Bool
lists action [] = false
lists action (action_list [] ∷ attrs) = lists action attrs
lists action (action_list (m ∷ ms) ∷ attrs) = names action (m ∷ ms)
lists action (action_other ∷ attrs) = lists action attrs
lists action (other_attr ∷ attrs) = lists action attrs

value_is-stands_for :
    (action : RpcAction) (m : NestedMeta) → value_is action (action_value m) ≡ stands_for action m
value_is-stands_for action (lit_str s) = refl
value_is-stands_for action (lit_int (some z)) = refl
value_is-stands_for action (lit_int none) = refl
value_is-stands_for action (meta_path z) = refl
value_is-stands_for action other_lit = refl
value_is-stands_for action other_meta = refl

names-lists :
    (action : RpcAction) (attrs : List Attribute)
    → names action (get_action_attribute attrs) ≡ lists action attrs
names-lists action [] = refl
names-lists action (action_list [] ∷ attrs) = names-lists action attrs
names-lists action (action_list (m ∷ ms) ∷ attrs) = refl
names-lists action (action_other ∷ attrs) = names-lists action attrs
names-lists action (other_attr ∷ attrs) = names-lists action attrs

-- The first variant whose attribute lists this action, by its place and its type.
abbrev pub at_place : ℕ → Option (List ℕ) → Option (ℕ × List ℕ)
at_place k none = none
at_place k (some ty) = some (k, ty)

abbrev pub route : ℕ → List Variant → RpcAction → Option (ℕ × List ℕ)
route k [] action = none
route k (v ∷ vs) action =
    if lists action v.attrs then at_place k v.inner_type else route (suc k) vs action

-- An arm of get_action gives the one action that decode_req takes there, or asks the task.
abbrev IsArm : Arms → Type 0
IsArm a = (a.fixed ≡ none) ⊎ ((b : RpcAction) × (a.fixed ≡ some b) × (a.actions ≡ b ∷ []))

push_action-some :
    (a : Option RpcAction) (rest : Option (List RpcAction)) (as' : List RpcAction)
    → push_action a rest ≡ some as'
    → (b : RpcAction) × (bs : List RpcAction) × (a ≡ some b) × (rest ≡ some bs) × (as' ≡ b ∷ bs)
push_action-some none rest as' e = absurd (ground arith)
push_action-some (some b) none as' e = absurd (ground arith)
push_action-some (some b) (some bs) as' e = (b, bs, refl, refl, sym (some-injective _ _ e))

arms_of-IsArm :
    (ty : List ℕ) (o : Option (List RpcAction)) (a : Arms)
    → arms_of ty o ≡ some a
    → (o ≡ some a.actions) × (a.inner_type ≡ ty) × IsArm a
arms_of-IsArm ty none a e = absurd (ground arith)
arms_of-IsArm ty (some []) a e = absurd (ground arith)
arms_of-IsArm ty (some (b ∷ [])) a e =
    subst (λ x. (some (b ∷ []) ≡ some x.actions) × (x.inner_type ≡ ty) × IsArm x)
      (some-injective _ _ e) (refl, refl, inr (b, refl, refl))
arms_of-IsArm ty (some (b ∷ c ∷ bs)) a e =
    subst (λ x. (some (b ∷ c ∷ bs) ≡ some x.actions) × (x.inner_type ≡ ty) × IsArm x)
      (some-injective _ _ e) (refl, refl, inl refl)

variant_arms-IsArm :
    (attrs : List Attribute) (ty : Option (List ℕ)) (a : Arms)
    → variant_arms true attrs ty ≡ some a
    → (action_values (get_action_attribute attrs) ≡ some a.actions)
      × (ty ≡ some a.inner_type)
      × IsArm a
variant_arms-IsArm attrs none a e = absurd (ground arith)
variant_arms-IsArm attrs (some ty) a e =
    let (v, t, i) = arms_of-IsArm ty (action_values (get_action_attribute attrs)) a e in
    (v, ap some (sym t), i)

push_arms-some :
    (a : Option Arms) (rest : Option (List Arms)) (as' : List Arms)
    → push_arms a rest ≡ some as'
    → (b : Arms) × (bs : List Arms) × (a ≡ some b) × (rest ≡ some bs) × (as' ≡ b ∷ bs)
push_arms-some none rest as' e = absurd (ground arith)
push_arms-some (some b) none as' e = absurd (ground arith)
push_arms-some (some b) (some bs) as' e = elim (Bool-cases (holds_type b.inner_type bs)) [
  | inl twice ↦ absurd (ground (arith, twice, e))
  | inr once ↦
      let f : b ∷ bs ≡ as' =
        some-injective _ _ (ap (λ c. if c then none else some (b ∷ bs)) (sym once) ∙ e) in
      (b, bs, refl, refl, sym f)
]

module _ {T E O N Q : Type 0} (inner : Inner T E O N Q) where
  takes-names :
      (action : RpcAction) (ms : List NestedMeta) (as' : List RpcAction)
      → action_values ms ≡ some as'
      → takes inner action as' ≡ names action ms
  takes-names action [] as' e = ap (takes inner action) (sym (some-injective _ _ e))
  takes-names action (m ∷ ms) as' e =
      let (b, bs, f, g, h) = push_action-some (action_value m) (action_values ms) as' e in
      ap (takes inner action) h
      ∙ ap₂ (λ x y. x || y) (ap (value_is action) (sym f) ∙ value_is-stands_for action m)
          (takes-names action ms bs g)

  -- What a request becomes that is taken to this place.
  abbrev pub routed : RpcAction → Q → Option (ℕ × List ℕ) → Result {0, 0} (Unit {0}) (ℕ × T)
  routed action q none = err tt
  routed action q (some (k, ty)) = in_variant inner k (inner.decode_req ty action q)

  by_test :
      (action : RpcAction) (q : Q) (b c : Bool) (x rest : Result {0, 0} (Unit {0}) (ℕ × T))
      (o p : Option (ℕ × List ℕ))
      → b ≡ c
      → x ≡ routed action q o
      → rest ≡ routed action q p
      → (if b then x else rest) ≡ routed action q (if c then o else p)
  by_test action q b true x rest o p e f g = ap (λ d. if d then x else rest) e ∙ f
  by_test action q b false x rest o p e f g = ap (λ d. if d then x else rest) e ∙ g

  decode_arms-routed :
      (k : ℕ) (vs : List Variant) (as' : List Arms) (action : RpcAction) (q : Q)
      → enum_arms true vs ≡ some as'
      → decode_arms inner k as' action q ≡ routed action q (route k vs action)
  decode_arms-routed k [] as' action q e =
      ap (λ x. decode_arms inner k x action q) (sym (some-injective _ _ e))
  decode_arms-routed k (v ∷ vs) as' action q e =
      let (a, rest, f, g, h) =
        push_arms-some (variant_arms true v.attrs v.inner_type) (enum_arms true vs) as' e in
      let (values, ty, i) = variant_arms-IsArm v.attrs v.inner_type a f in
      let t =
        takes-names action (get_action_attribute v.attrs) a.actions values
        ∙ names-lists action v.attrs in
      ap (λ x. decode_arms inner k x action q) h
      ∙ by_test action q (takes inner action a.actions) (lists action v.attrs)
          (in_variant inner k (inner.decode_req a.inner_type action q))
          (decode_arms inner (suc k) rest action q) (at_place k v.inner_type)
          (route (suc k) vs action) t (ap (λ o. routed action q (at_place k o)) (sym ty))
          (decode_arms-routed (suc k) vs rest action q g)

  -- The inner types keep the action that they were decoded with, as `ServerTaskVariant` does.
  abbrev pub KeepsAction : Type 0
  KeepsAction =
      (ty : List ℕ) (action : RpcAction) (q : Q) (task : T)
      → inner.decode_req ty action q ≡ ok task
      → inner.get_action task ≡ action

  AllArms : List Arms → Type 0
  AllArms [] = Unit {0}
  AllArms (a ∷ as') = IsArm a × AllArms as'

  enum_arms-AllArms :
      (vs : List Variant) (as' : List Arms) → enum_arms true vs ≡ some as' → AllArms as'
  unfolding AllArms
  enum_arms-AllArms [] as' e = subst AllArms (some-injective _ _ e) tt
  enum_arms-AllArms (v ∷ vs) as' e =
      let (a, rest, f, g, h) =
        push_arms-some (variant_arms true v.attrs v.inner_type) (enum_arms true vs) as' e in
      subst AllArms (sym h)
        ((variant_arms-IsArm v.attrs v.inner_type a f).2, enum_arms-AllArms vs rest g)

  in_variant-ok :
      (k j : ℕ) (r : Result {0, 0} (Unit {0}) T) (task : T)
      → in_variant inner k r ≡ ok (j, task)
      → (j ≡ k) × (r ≡ ok task)
  in_variant-ok k j (ok t) task e = (ground arith, ground arith)
  in_variant-ok k j (err u) task e = absurd (ground arith)

  module _ (keeps : KeepsAction) where
    arm_keeps :
        (a : Arms) (action : RpcAction) (q : Q) (task : T)
        → IsArm a
        → takes inner action a.actions ≡ true
        → inner.decode_req a.inner_type action q ≡ ok task
        → fixed_or inner a.fixed task ≡ action
    arm_keeps a action q task (inl asks) t d =
        ap (λ f. fixed_or inner f task) asks ∙ keeps a.inner_type action q task d
    arm_keeps a action q task (inr (b, f, l)) t d =
        let one : (action_eq b action || false) ≡ true = ap (takes inner action) (sym l) ∙ t in
        ap (λ x. fixed_or inner x task) f ∙ action_eq_sound b action (ground (arith, one))

    decode_arms-get_action :
        (k : ℕ) (as' : List Arms) (action : RpcAction) (q : Q) (j : ℕ) (task : T)
        → AllArms as'
        → decode_arms inner k as' action q ≡ ok (j, task)
        → (i : ℕ) × (j ≡ k + i) × (arm_action inner (get_elem? as' i) task ≡ some action)
    unfolding AllArms
    decode_arms-get_action k [] action q j task all e = absurd (ground arith)
    decode_arms-get_action k (a ∷ as') action q j task (arm, all) e =
        elim (Bool-cases (takes inner action a.actions)) [
          | inl t ↦
              let (same, d) =
                in_variant-ok k j (inner.decode_req a.inner_type action q) task (rw t at e) in
              (zero, omega arith, ap some (arm_keeps a action q task arm t d))
          | inr f ↦
              let (i, s, r) = decode_arms-get_action (suc k) as' action q j task all (rw f at e) in
              (suc i, omega arith, r)
        ]

    expanded-arms :
        (name : List ℕ) (vs : List Variant) (attrs : Option EnumAttrs) (e : ServerEnum)
        → expanded_enum name vs attrs ≡ some e
        → enum_arms e.attrs.req vs ≡ some e.arms
    expanded-arms name vs none e h = absurd (ground arith)
    expanded-arms name vs (some attrs) e h =
        go (resp_type_of name attrs.resp attrs.resp_type) (enum_arms attrs.req vs) refl h
      where
        go :
            (t : Option (List ℕ)) (o : Option (List Arms))
            → enum_arms attrs.req vs ≡ o
            → expanded_arms attrs t o ≡ some e
            → enum_arms e.attrs.req vs ≡ some e.arms
        go none o f h' = absurd (ground arith)
        go (some t) none f h' = absurd (ground arith)
        go (some t) (some arms) f h' =
            subst (λ x. enum_arms x.attrs.req vs ≡ some x.arms) (some-injective _ _ h') f

    -- The request enum that `#[server_task_enum(req)]` makes takes a request to the first variant whose
    -- first non-empty `#[action(...)]` lists its action, at whatever place, as a literal or a path, where
    -- the inner type decodes it, and refuses it if there is no such variant; and the action of a task
    -- that it decoded is that of the request. The condition: the inner types keep the action that they
    -- were decoded with.
    pub decode_req-route :
        (as' : List EnumArg) (name : List ℕ) (vs : List Variant) (e : ServerEnum)
        (action : RpcAction) (q : Q)
        → server_task_enum_impl as' name vs ≡ some e
        → e.attrs.req ≡ true
        → (decode_req inner e action q ≡ routed action q (route 0 vs action))
          × ((task : ℕ × T)
              → decode_req inner e action q ≡ ok task
              → get_action inner e task ≡ some action)
    unfolding server_task_enum_impl decode_req get_action
    decode_req-route as' name vs e action q h r =
        let arms =
          subst (λ b. enum_arms b vs ≡ some e.arms) r (expanded-arms name vs (parse as') e h) in
        (
          decode_arms-routed 0 vs e.arms action q arms,
          λ task d.
              let (i, s, g) =
                decode_arms-get_action 0 e.arms action q task.0 task.1
                  (enum_arms-AllArms vs e.arms arms) d in
              let same : task.0 ≡ i = omega arith in
              subst (λ k. arm_action inner (get_elem? e.arms k) task.1 ≡ some action) (sym same) g,
        )
