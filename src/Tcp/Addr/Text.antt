-- ===== src/Tcp/Addr/Text.antt =====
-- An address and its text (`UnifyAddr` of transport/tcp/src/net.rs).
use occams_rpc.Base.{
  ℕ, ◌≡◌, ◌⊎◌, inl, inr, refl, ap, ◌∙◌, Bool, true, false, Option, none, some, some-injective, List,
  [], ◌∷◌, arith, ◌==◌, if◌then◌else◌,
}
use occams_rpc.Base.Result.{ok}
use occams_rpc.Tcp.Addr.{
  UnifyAddr, socket, path, Addrs, first_resolved, parsed_or_resolved, from_str, socket_or_ip,
  eq_str,
}

module _ {A I : Type 0} (addrs : Addrs A I) where
  -- The name was resolved, and this is its first address.
  abbrev pub IsResolved : List ℕ → UnifyAddr A → Type 0
  IsResolved s a =
      (addrs.parse_socket s ≡ none)
      × (b : A) × (bs : List A) × (addrs.to_socket_addrs s ≡ some (b ∷ bs))
      × (a ≡ socket b)

  module _ (socket_eq_refl : (a : A) → addrs.socket_eq a a ≡ true)
      (path_eq_refl : (p : List ℕ) → addrs.path_eq p p ≡ true) where
    abbrev Answers : List ℕ → UnifyAddr A → Type 0
    Answers s a = (eq_str addrs a s ≡ true) ⊎ IsResolved s a

    resolved-Answers :
        (s : List ℕ) (a : UnifyAddr A) (r : Option (List A))
        → addrs.parse_socket s ≡ none
        → addrs.to_socket_addrs s ≡ r
        → first_resolved addrs r ≡ ok a
        → Answers s a
    resolved-Answers s a none n e h = absurd (ground arith)
    resolved-Answers s a (some []) n e h = absurd (ground arith)
    resolved-Answers s a (some (b ∷ bs)) n e h = inr (n, b, bs, e, ground arith)

    parsed-Answers :
        (s : List ℕ) (a : UnifyAddr A) (o : Option A)
        → addrs.parse_socket s ≡ o
        → parsed_or_resolved addrs s o ≡ ok a
        → Answers s a
    parsed-Answers s a none e h = resolved-Answers s a (addrs.to_socket_addrs s) e refl h
    parsed-Answers s a (some b) e h =
        let same : socket b ≡ a = ground arith in
        inl (rw (← same) (ap (socket_or_ip addrs b s) e ∙ socket_eq_refl b))

    first_byte-Answers :
        (s : List ℕ) (a : UnifyAddr A) (is_path : Bool)
        → (if is_path
            then some (ok (path s))
            else some (parsed_or_resolved addrs s (addrs.parse_socket s)))
          ≡ some (ok a)
        → Answers s a
    first_byte-Answers s a true h =
        let same : path s ≡ a = ground arith in inl (rw (← same) (path_eq_refl s))
    first_byte-Answers s a false h =
        parsed-Answers s a (addrs.parse_socket s) refl (some-injective _ _ h)

    -- An address that was read from a text is equal to that text, unless the text is no address and was
    -- resolved as a name. The conditions: the equalities of socket addresses and of paths are reflexive.
    pub from_str-eq_str :
        (s : List ℕ) (a : UnifyAddr A)
        → from_str addrs s ≡ some (ok a)
        → (eq_str addrs a s ≡ true) ⊎ IsResolved s a
    from_str-eq_str [] a h = absurd (ground arith)
    from_str-eq_str (c ∷ s) a h = first_byte-Answers (c ∷ s) a (c == 47) h
