-- ===== src/Api/Dispatch.antt =====
-- How `APIDispatch` (src/server/dispatch.rs) takes an action apart, and which service `ServiceMuxDyn`
-- (src/server/service.rs) gives a request to.
use occams_rpc.Base.{
  ℕ, ◌≡◌, ◌≢◌, refl, sym, ap, false, Bool-cases, inl, inr, Option, none, some, List, [], ◌∷◌, ◌++◌,
  ◌==◌, if◌then◌else◌, arith,
}
use occams_rpc.Base.Result.{Result, ok, err}
use occams_rpc.Error.Text.{bytes_eq, bytes_eq_sound, bytes_eq_refl}
use occams_rpc.Proto.{RpcAction, str, num_action}
use occams_rpc.Api.Server.{
  ServerResp, split_once, put_before, dispatch_req, add, find_service, serve,
}

abbrev pub NoDot : List ℕ → Type 0
NoDot [] = Unit {0}
NoDot (x ∷ s) = (x ≢ 46) × NoDot s

-- The first part has no dot, and the two parts with a dot between them are the whole; or there is no
-- dot at all.
abbrev pub Splits : List ℕ → Option (List ℕ × List ℕ) → Type 0
Splits a (some (s, m)) = (a ≡ s ++ (46 ∷ m)) × NoDot s
Splits a none = NoDot a

put_before-Splits :
    (x : ℕ) (a : List ℕ) (o : Option (List ℕ × List ℕ))
    → x ≢ 46
    → Splits a o
    → Splits (x ∷ a) (put_before x o)
put_before-Splits x a none n h = (n, h)
put_before-Splits x a (some (s, m)) n h = (ap (λ y. x ∷ y) h.0, (n, h.1))

split_once-Splits : (a : List ℕ) → Splits a (split_once a)
split_once-Splits [] = tt
split_once-Splits (x ∷ a) = elim (Bool-cases (x == 46)) [
  | inl dot ↦ rw dot (ground (arith, dot), tt)
  | inr other ↦
      rw other (put_before-Splits x a (split_once a) (ground (arith, other)) (split_once-Splits a))
]

-- The action is a text that splits so; or it is a number, or a text without a dot.
abbrev pub Dispatches : RpcAction → Result {0, 0} Unit (List ℕ × List ℕ) → Type 0
Dispatches (str a) (ok (s, m)) = (a ≡ s ++ (46 ∷ m)) × NoDot s
Dispatches (str a) (err u) = NoDot a
Dispatches (num_action n) (ok p) = ⊥
Dispatches (num_action n) (err u) = Unit {0}

-- A request is dispatched exactly if its action is a text with a dot: to the service that the text
-- names before its first dot, and the method that it names behind it. A number, or a text without a
-- dot, is refused.
pub dispatch_req_lem : (a : RpcAction) → Dispatches a (dispatch_req a)
unfolding dispatch_req
dispatch_req_lem (num_action n) = tt
dispatch_req_lem (str a) = by_split (split_once a) (split_once-Splits a)
  where
    by_split :
        (o : Option (List ℕ × List ℕ))
        → Splits a o
        → Dispatches (str a) (elim o [ some p ↦ ok p | none ↦ err tt ])
    by_split none h = h
    by_split (some p) h = h

module _ {S : Type 0} (get_service_name : S → List ℕ) where
  find-add_same :
      (s : S) (ts : List S)
      → find_service get_service_name (get_service_name s) (add get_service_name s ts) ≡ some s
  find-add_same s [] = ground (arith, bytes_eq_refl (get_service_name s))
  find-add_same s (t ∷ ts) =
      elim (Bool-cases (bytes_eq (get_service_name t) (get_service_name s))) [
        | inl same ↦ rw same (ground (arith, bytes_eq_refl (get_service_name s)))
        | inr other ↦ rw other (rw other (find-add_same s ts))
      ]

  find-add_other :
      (name : List ℕ) (s : S) (ts : List S)
      → bytes_eq (get_service_name s) name ≡ false
      → find_service get_service_name name (add get_service_name s ts)
        ≡ find_service get_service_name name ts
  find-add_other name s [] h = rw h refl
  find-add_other name s (t ∷ ts) h =
      elim (Bool-cases (bytes_eq (get_service_name t) (get_service_name s))) [
        | inl same ↦
            let e : get_service_name t ≡ get_service_name s =
              bytes_eq_sound (get_service_name t) (get_service_name s) same in
            let f : bytes_eq (get_service_name t) name ≡ false = rw e h in rw (same, h, f) refl
        | inr other ↦ rw other (
            ap (λ r. if bytes_eq (get_service_name t) name then some t else r)
              (find-add_other name s ts h))
      ]

  -- After a service is added, a request under its name goes to it, and a request under another name
  -- goes where it went before, to the error Service if there was no such service.
  pub serve-add :
      (serve_dyn : S → ServerResp) (seq : ℕ) (name : List ℕ) (s : S) (ts : List S)
      → serve get_service_name serve_dyn seq name (add get_service_name s ts) ≡ (
          if bytes_eq (get_service_name s) name
          then serve_dyn s
          else serve get_service_name serve_dyn seq name ts)
  unfolding serve
  serve-add serve_dyn seq name s ts = elim (Bool-cases (bytes_eq (get_service_name s) name)) [
    | inl same ↦
        let e : get_service_name s ≡ name = bytes_eq_sound (get_service_name s) name same in
        rw (same, sym e, find-add_same s ts) refl
    | inr other ↦ rw (other, find-add_other name s ts other) refl
  ]
