-- ===== src/Macros/ClientTask/Fields.antt =====
-- What the loops of `#[client_task]` over the fields and their tags come to
-- (stream/macros/src/client_task.rs).
use occams_rpc.Base.{
  ℕ, ◌+◌, ◌≡◌, refl, ap, ◌∙◌, ◌≤◌, fun_ext, Bool, true, false, Bool-cases, inl, inr, ◌||◌, ◌&&◌,
  Option, none, some, List, [], ◌∷◌, arith, leb, if◌then◌else◌,
}
use occams_rpc.Macros.ClientTask.{
  Role, common, req, resp, req_blob, resp_blob, action, res, noti, unknown, role_of, Slot, Field,
  Tagged, nothing_tagged, set_role, then_tags, set_tags, set_fields,
}

-- The place of a role in the list of roles.
abbrev number : Role → ℕ
number common = 0
number req = 1
number resp = 2
number req_blob = 3
number resp_blob = 4
number action = 5
number res = 6
number noti = 7
number unknown = 8

abbrev pub role_eq : Role → Role → Bool
role_eq r q = leb (number r) (number q) && leb (number q) (number r)

abbrev pub is_action : Role → ℕ
is_action r = if role_eq r action then 1 else 0

-- Whether one of the tags has this role, and how many are actions.
abbrev pub has_role : List (List ℕ) → Role → Bool
has_role [] r = false
has_role (name ∷ names) r = role_eq (role_of name) r || has_role names r

abbrev pub count_actions : List (List ℕ) → ℕ
count_actions [] = 0
count_actions (name ∷ names) = is_action (role_of name) + count_actions names

abbrev pub or_else : Option Slot → Option Slot → Option Slot
or_else (some f) o = some f
or_else none o = o

abbrev pub slot_if : Bool → Slot → Option Slot
slot_if true f = some f
slot_if false f = none

-- The last field with this role, and the number of tags that are actions.
abbrev pub last_with : List Field → Role → Option Slot
last_with [] r = none
last_with (f ∷ fs) r = or_else (last_with fs r) (slot_if (has_role f.tags r) f.slot)

abbrev pub all_actions : List Field → ℕ
all_actions [] = 0
all_actions (f ∷ fs) = count_actions f.tags + all_actions fs

-- The variables, each set to the field that is found for its role, or left as it was.
abbrev pub tagged_by : (Role → Option Slot) → Tagged → Tagged
tagged_by found t = record {
  common_field = or_else (found common) t.common_field;
  req_field = or_else (found req) t.req_field;
  resp_field = or_else (found resp) t.resp_field;
  req_blob_field = or_else (found req_blob) t.req_blob_field;
  resp_blob_field = or_else (found resp_blob) t.resp_blob_field;
  field_action = or_else (found action) t.field_action;
  res_field = or_else (found res) t.res_field;
  noti_field = or_else (found noti) t.noti_field;
}

abbrev had : Option Slot → ℕ
had none = 0
had (some f) = 1

abbrev limited : ℕ → Tagged → Option Tagged
limited n t = if leb n 1 then some t else none

-- One more tag in front.
tag_step :
    (r : Role) (has : Role → Bool) (n : ℕ) (f : Slot) (t : Tagged)
    → then_tags
        (λ u. limited (had u.field_action + n) (tagged_by (λ q. slot_if (has q) f) u))
        (set_role r f t)
      ≡ limited
          (had t.field_action + (is_action r + n))
          (tagged_by (λ q. slot_if (role_eq r q || has q) f) t)
tag_step common has n f t = ground arith
tag_step req has n f t = ground arith
tag_step resp has n f t = ground arith
tag_step req_blob has n f t = ground arith
tag_step resp_blob has n f t = ground arith
tag_step action has n f t = ground arith
tag_step res has n f t = ground arith
tag_step noti has n f t = ground arith
tag_step unknown has n f t = ground arith

set_tags_lem :
    (names : List (List ℕ)) (f : Slot) (t : Tagged)
    → set_tags names f t
      ≡ limited
          (had t.field_action + count_actions names)
          (tagged_by (λ q. slot_if (has_role names q) f) t)
set_tags_lem [] f t = ground arith
set_tags_lem (name ∷ names) f t =
    ap (λ next. then_tags next (set_role (role_of name) f t)) (fun_ext (set_tags_lem names f))
    ∙ tag_step (role_of name) (has_role names) (count_actions names) f t

has_role-action : (names : List (List ℕ)) → has_role names action ≡ leb 1 (count_actions names)
has_role-action [] = ground arith
has_role-action (name ∷ names) = ground (arith, has_role-action names)

or_else-none : (a : Option Slot) → or_else a none ≡ a
or_else-none none = refl
or_else-none (some f) = refl

or_else_assoc : (a b c : Option Slot) → or_else a (or_else b c) ≡ or_else (or_else a b) c
or_else_assoc none b c = refl
or_else_assoc (some f) b c = refl

tagged_twice :
    (now later : Role → Option Slot) (t : Tagged)
    → tagged_by later (tagged_by now t) ≡ tagged_by (λ q. or_else (later q) (now q)) t
tagged_twice now later t = simp or_else_assoc

had_more :
    (a o : Option Slot) (m n : ℕ)
    → (m ≤ 1 → had a ≡ m)
    → leb (had o + m) 1 ≡ true
    → had (or_else a o) + n ≡ had o + (m + n)
had_more none none m n h l = let e = h (ground arith) in omega (arith, e)
had_more none (some f) m n h l = let e = h (ground arith) in omega (arith, e)
had_more (some g) none m n h l = let e = h (ground arith) in omega (arith, e)
had_more (some g) (some f) m n h l = let e = h (ground arith) in absurd (ground (arith, e, l))

had-slot_if : (f : Slot) (b : Bool) (m : ℕ) → b ≡ leb 1 m → m ≤ 1 → had (slot_if b f) ≡ m
had-slot_if f true m e l = ground arith
had-slot_if f false m e l = ground arith

-- The tags of one more field in front.
field_step :
    (m n : ℕ) (now later : Role → Option Slot) (t : Tagged)
    → (m ≤ 1 → had (now action) ≡ m)
    → then_tags
        (λ u. limited (had u.field_action + n) (tagged_by later u))
        (limited (had t.field_action + m) (tagged_by now t))
      ≡ limited (had t.field_action + (m + n)) (tagged_by (λ q. or_else (later q) (now q)) t)
field_step m n now later t h = elim (Bool-cases (leb (had t.field_action + m) 1)) [
  | inl l ↦ rw l (
      ap (λ k. limited k (tagged_by later (tagged_by now t)))
        (had_more (now action) t.field_action m n h l)
      ∙ ap (limited (had t.field_action + (m + n))) (tagged_twice now later t))
  | inr l ↦
      let k : leb (had t.field_action + (m + n)) 1 ≡ false = ground (arith, l) in rw (l, k) refl
]

set_fields_from :
    (fs : List Field) (t : Tagged)
    → set_fields fs t ≡ limited (had t.field_action + all_actions fs) (tagged_by (last_with fs) t)
set_fields_from [] t = ground arith
set_fields_from (f ∷ fs) t =
    ap (λ next. then_tags next (set_tags f.tags f.slot t)) (fun_ext (set_fields_from fs))
    ∙ ap (then_tags λ u. limited (had u.field_action + all_actions fs) (tagged_by (last_with fs) u))
        (set_tags_lem f.tags f.slot t)
    ∙ field_step (count_actions f.tags) (all_actions fs) (λ q. slot_if (has_role f.tags q) f.slot)
        (last_with fs) t
        (λ l.
          had-slot_if f.slot (has_role f.tags action) (count_actions f.tags)
            (has_role-action f.tags) l)

-- The loops over the fields and their tags end in a panic exactly if more than one tag is an action;
-- otherwise each variable is the last field that has a tag of its role, and none if no field has one.
pub set_fields_lem :
    (fs : List Field)
    → set_fields fs nothing_tagged ≡ (
        if leb (all_actions fs) 1
        then some (record {
          common_field = last_with fs common;
          req_field = last_with fs req;
          resp_field = last_with fs resp;
          req_blob_field = last_with fs req_blob;
          resp_blob_field = last_with fs resp_blob;
          field_action = last_with fs action;
          res_field = last_with fs res;
          noti_field = last_with fs noti;
        })
        else none)
set_fields_lem fs =
    let z : 0 + all_actions fs ≡ all_actions fs = omega arith in
    set_fields_from fs nothing_tagged ∙ simp (z, or_else-none)
