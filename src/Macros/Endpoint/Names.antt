-- ===== src/Macros/Endpoint/Names.antt =====
-- Under which names the client that `#[endpoint_async]` makes (macros/src/endpoint_async.rs) sends.
use occams_rpc.Base.{
  ℕ, ◌≡◌, ◌⊎◌, inl, inr, refl, sym, subst, false, Option, none, some, some-injective, List, [], ◌∷◌,
  ◌++◌, arith, ◌==◌,
}
use occams_rpc.Api.Server.{split_once}
use occams_rpc.Api.Dispatch.{NoDot}
use occams_rpc.Macros.Syntax.{Method, Item, method, other_item}
use occams_rpc.Macros.Endpoint.{
  Generated, service_method_of, generate_parsed, generate_method, push_method, parse_inputs,
  generate_trait_impl,
}

-- A member of a list.
abbrev pub Has : {A : Type 0} → A → List A → Type 0
Has a [] = ⊥
Has a (x ∷ xs) = (a ≡ x) ⊎ Has a xs

generate_method-name :
    (trait_name : List ℕ) (m : Method) (p : Option (Option (List ℕ))) (g : Generated)
    → generate_parsed trait_name m p ≡ some g
    → g.service_method ≡ service_method_of trait_name g.ident
generate_method-name trait_name m none g e = absurd (ground arith)
generate_method-name trait_name m (some a) g e = ground arith

push_method-some :
    (g : Option Generated) (rest : Option (List Generated)) (gs : List Generated)
    → push_method g rest ≡ some gs
    → (h : Generated) × (hs : List Generated) × (g ≡ some h) × (rest ≡ some hs) × (gs ≡ h ∷ hs)
push_method-some none rest gs e = absurd (ground arith)
push_method-some (some g) none gs e = absurd (ground arith)
push_method-some (some g) (some hs) gs e = (g, hs, refl, refl, ground arith)

-- Every method of the client sends under the name of the trait and its own.
pub generate_trait_impl-name :
    (trait_name : List ℕ) (items : List Item) (gs : List Generated) (g : Generated)
    → generate_trait_impl trait_name items ≡ some gs
    → Has g gs
    → g.service_method ≡ service_method_of trait_name g.ident
unfolding generate_trait_impl
generate_trait_impl-name trait_name [] gs g e h =
    absurd (subst (Has g) (sym (some-injective _ _ e)) h)
generate_trait_impl-name trait_name (other_item ∷ items) gs g e h =
    generate_trait_impl-name trait_name items gs g e h
generate_trait_impl-name trait_name (method m ∷ items) gs g e h =
    let (g', hs, f, r, s) =
      push_method-some (generate_method trait_name m) (generate_trait_impl trait_name items) gs e in
    elim (subst (Has g) s h) [
      | inl same ↦
          subst (λ x. x.service_method ≡ service_method_of trait_name x.ident) (sym same)
            (generate_method-name trait_name m (parse_inputs m.inputs) g' f)
      | inr later ↦ generate_trait_impl-name trait_name items hs g r later
    ]

-- A name without a dot is what stands before the first dot.
pub split_once-joined : (s m : List ℕ) → NoDot s → split_once (s ++ (46 ∷ m)) ≡ some (s, m)
split_once-joined [] m n = refl
split_once-joined (x ∷ s) m (n, ns) =
    let e : (x == 46) ≡ false = ground arith in rw (e, split_once-joined s m ns) refl
