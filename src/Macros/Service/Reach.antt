-- ===== src/Macros/Service/Reach.antt =====
-- Which method of a service that `#[service]` makes (macros/src/service.rs), behind a mux of
-- `#[service_mux_struct]`, a request reaches.
use occams_rpc.Base.{
  ℕ, ◌≡◌, ◌⊎◌, inl, inr, refl, sym, ap, subst, ◌∙◌, Bool, true, false, ◌||◌, Bool-cases, Option,
  none, some, some-injective, List, [], ◌∷◌, arith, if◌then◌else◌,
}
use occams_rpc.Error.Text.{bytes_eq, bytes_eq_refl}
use occams_rpc.Macros.Syntax.{SynType, Method, Item, method, other_item}
use occams_rpc.Macros.Service.{
  ItemImpl, service_name, first_typed, should_await, method_data, push_data, methods_data,
  ServiceStatic, is_trait, expanded, expand_service, ServerReq, Methods, handle, serve_arms,
}
use occams_rpc.Macros.Mux.{Field, mux_serve}

-- The service: this method is the first exposed one of its name.
abbrev pub Exposes : Bool → List Item → Method → Type 0
Exposes of_trait [] m = ⊥
Exposes of_trait (other_item ∷ items) m = Exposes of_trait items m
Exposes of_trait (method n ∷ items) m =
    ((n ≡ m) × ((of_trait || m.marked) ≡ true))
    ⊎ ((bytes_eq m.ident n.ident ≡ false) × Exposes of_trait items m)

method_data-some :
    (n : Method) (o : Option SynType) (d : List ℕ × SynType)
    → method_data n o ≡ some d
    → (ty : SynType) × (o ≡ some ty) × (should_await n ≡ true) × (d ≡ (n.ident, ty))
method_data-some n none d e = absurd (ground arith)
method_data-some n (some ty) d e = elim (Bool-cases (should_await n)) [
  | inl w ↦ let f : (n.ident, ty) ≡ d = some-injective _ _ (rw w at e) in (ty, refl, w, sym f)
  | inr w ↦ absurd (ground (arith, w, e))
]

push_data-some :
    (d : Option (List ℕ × SynType)) (rest : Option (List (List ℕ × SynType)))
    (ds : List (List ℕ × SynType))
    → push_data d rest ≡ some ds
    → (x : List ℕ × SynType) × (xs : List (List ℕ × SynType)) × (d ≡ some x)
      × (rest ≡ some xs)
      × (ds ≡ x ∷ xs)
push_data-some none rest ds e = absurd (ground arith)
push_data-some (some d) none ds e = absurd (ground arith)
push_data-some (some d) (some xs) ds e = (d, xs, refl, refl, sym (some-injective _ _ e))

module _ {A R E : Type 0} (methods : Methods A R E) where
  -- A request under the method's name goes to the method's handler, with the type of its argument.
  abbrev pub Reaches : List (List ℕ × SynType) → Method → Type 0
  Reaches arms m =
      (ty : SynType) × (first_typed m.inputs ≡ some ty)
      × (should_await m ≡ true)
      × ((req : ServerReq)
          → req.method ≡ m.ident
          → serve_arms methods req arms ≡ handle methods (m.ident, ty) req)

  first_Reaches :
      (n : Method) (d : List ℕ × SynType) (ds : List (List ℕ × SynType))
      → method_data n (first_typed n.inputs) ≡ some d
      → Reaches (d ∷ ds) n
  first_Reaches n d ds e =
      let (ty, t, w, f) = method_data-some n (first_typed n.inputs) d e in
      (
        ty,
        t,
        w,
        λ req h.
            subst
              (λ x.
                (if bytes_eq req.method x.0
                  then handle methods x req
                  else serve_arms methods req ds)
                ≡ handle methods (n.ident, ty) req)
              (sym f) (rw (h, bytes_eq_refl n.ident) refl),
      )

  later_Reaches :
      (n m : Method) (d : List ℕ × SynType) (ds : List (List ℕ × SynType))
      → method_data n (first_typed n.inputs) ≡ some d
      → bytes_eq m.ident n.ident ≡ false
      → Reaches ds m
      → Reaches (d ∷ ds) m
  later_Reaches n m d ds e ne (ty, t, w, r) = (
    ty,
    t,
    w,
    λ req h.
        let f = (method_data-some n (first_typed n.inputs) d e).3 in
        subst
          (λ x.
            (if bytes_eq req.method x.0 then handle methods x req else serve_arms methods req ds)
            ≡ handle methods (m.ident, ty) req)
          (sym f) (rw (ap (λ x. bytes_eq x n.ident) h ∙ ne) (r req h)),
  )

  methods_data-Reaches :
      (of_trait : Bool) (items : List Item) (ds : List (List ℕ × SynType)) (m : Method)
      → methods_data of_trait items ≡ some ds
      → Exposes of_trait items m
      → Reaches ds m
  unfolding methods_data
  methods_data-Reaches of_trait [] ds m e h = elim h [ ]
  methods_data-Reaches of_trait (other_item ∷ items) ds m e h =
      methods_data-Reaches of_trait items ds m e h
  methods_data-Reaches of_trait (method n ∷ items) ds m e h =
      elim (Bool-cases (of_trait || n.marked)) [
        | inl exposed ↦
            let (d, xs, f, r, s) =
              push_data-some (method_data n (first_typed n.inputs)) (methods_data of_trait items) ds
                (rw exposed at e) in
            subst (λ x. Reaches x m) (sym s)
              (elim h [
                | inl here ↦ subst (Reaches (d ∷ xs)) here.0 (first_Reaches n d xs f)
                | inr later ↦
                    later_Reaches n m d xs f later.0
                      (methods_data-Reaches of_trait items xs m r later.1)
              ])
        | inr hidden ↦ elim h [
          | inl here ↦ absurd (ground (arith, hidden, here.1, ap (λ (x : Method). x.marked) here.0))
          | inr later ↦ methods_data-Reaches of_trait items ds m (rw hidden at e) later.1
        ]
      ]

  expanded-some :
      (name : Option (List ℕ)) (ds : Option (List (List ℕ × SynType))) (svc : ServiceStatic)
      → expanded name ds ≡ some svc
      → (name ≡ some svc.name) × (ds ≡ some svc.arms)
  expanded-some none ds svc e = absurd (ground arith)
  expanded-some (some name) none svc e = absurd (ground arith)
  expanded-some (some name) (some ds) svc e = (ground arith, ground arith)

  -- An `impl` that `#[service]` accepts has its trait's name, or its type's, and a request under the
  -- name of an exposed method reaches that method.
  pub expand_service-Reaches :
      (i : ItemImpl) (svc : ServiceStatic) (m : Method)
      → expand_service i ≡ some svc
      → Exposes (is_trait i.trait_) i.items m
      → (service_name i.trait_ i.self_ty ≡ some svc.name) × Reaches svc.arms m
  unfolding expand_service
  expand_service-Reaches i svc m e h =
      let (n, d) =
        expanded-some (service_name i.trait_ i.self_ty) (methods_data (is_trait i.trait_) i.items)
          svc e in
      (n, methods_data-Reaches (is_trait i.trait_) i.items svc.arms m d h)

-- The mux: this field is the first of its name.
abbrev pub Holds : List Field → Field → Type 0
Holds [] f = ⊥
Holds (g ∷ fs) f = (g ≡ f) ⊎ ((bytes_eq f.name g.name ≡ false) × Holds fs f)

-- A request under a service's name goes to that service.
pub mux_serve-Holds :
    (fs : List Field) (f : Field) (req : ServerReq)
    → Holds fs f
    → req.service ≡ f.name
    → mux_serve fs req ≡ f.serve req
unfolding mux_serve
mux_serve-Holds [] f req h e = elim h [ ]
mux_serve-Holds (g ∷ fs) f req h e = elim h [
  | inl here ↦
      subst
        (λ x. (if bytes_eq req.service g.name then g.serve req else mux_serve fs req) ≡ x.serve req)
        here (rw (e, ap (λ (x : Field). x.name) (sym here), bytes_eq_refl g.name) refl)
  | inr later ↦ rw (ap (λ x. bytes_eq x g.name) e ∙ later.0) (mux_serve-Holds fs f req later.1 e)
]
