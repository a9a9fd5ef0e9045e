-- ===== src/Client/Failover/Addrs.antt =====
-- `FailoverPool::update_addrs` (stream/src/client/failover.rs): which pools stand for which addresses.
use occams_rpc.Base.{
  ℕ, ◌+◌, ◌≡◌, refl, ap₂, Bool-cases, inl, inr, Option, none, some, List, [], ◌∷◌, map, arith,
}
use occams_rpc.Error.Text.{bytes_eq, bytes_eq_sound}
use occams_rpc.Client.Failover.{
  ClusterConfig, find_pool, without_pool, reused_or_new, new_pools, old_pools_map, update_addrs,
}

module _ {P : Type 0} (get_addr : P → List ℕ) (new_pool : List ℕ → P)
    (new_pool-addr : (addr : List ℕ) → get_addr (new_pool addr) ≡ addr) where
  find_pool-addr :
      (addr : List ℕ) (old : List P) (p : P)
      → find_pool get_addr new_pool addr old ≡ some p
      → get_addr p ≡ addr
  find_pool-addr addr [] p h = absurd (ground (arith, h))
  find_pool-addr addr (q ∷ qs) p h = elim (Bool-cases (bytes_eq (get_addr q) addr)) [
    | inl same ↦ ground (arith, same, h, bytes_eq_sound (get_addr q) addr same)
    | inr differs ↦ find_pool-addr addr qs p (ground (arith, differs, h))
  ]

  reused_or_new-addr :
      (addr : List ℕ) (o : Option P)
      → ((p : P) → o ≡ some p → get_addr p ≡ addr)
      → get_addr (reused_or_new get_addr new_pool addr o) ≡ addr
  reused_or_new-addr addr none h = new_pool-addr addr
  reused_or_new-addr addr (some p) h = h p refl

  new_pools-addr :
      (addrs : List (List ℕ)) (old : List P)
      → map get_addr (new_pools get_addr new_pool addrs old) ≡ addrs
  new_pools-addr [] old = refl
  new_pools-addr (addr ∷ addrs) old =
      ap₂ (λ x y. x ∷ y)
        (reused_or_new-addr addr (find_pool get_addr new_pool addr old) (find_pool-addr addr old))
        (new_pools-addr addrs (without_pool get_addr new_pool addr old))

  -- The cluster after an update has one pool for each of the addresses, in their order, whatever the
  -- cluster was before, and a new version, which makes the retry worker select afresh. The condition:
  -- a new pool has the address it is made for.
  pub update_addrs-addr :
      (addrs : List (List ℕ)) (cluster : Option (ClusterConfig P)) (ver : ℕ)
      → (map get_addr (update_addrs get_addr new_pool addrs cluster ver).0.pools ≡ addrs)
        × ((update_addrs get_addr new_pool addrs cluster ver).0.ver ≡ ver + 1)
        × ((update_addrs get_addr new_pool addrs cluster ver).1 ≡ ver + 1)
  unfolding update_addrs
  update_addrs-addr addrs none ver = (new_pools-addr addrs [], refl, refl)
  update_addrs-addr addrs (some c) ver =
      (new_pools-addr addrs (old_pools_map get_addr new_pool [] c.pools), refl, refl)
