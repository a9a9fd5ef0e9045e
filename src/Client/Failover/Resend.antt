-- ===== src/Client/Failover/Resend.antt =====
-- Where a task that has failed is sent again (stream/src/client/failover.rs), and when not.
use occams_rpc.Base.{
  ℕ, suc, ◌+◌, ◌^◌, ◌%◌, ◌≤◌, ◌<◌, ◌≡◌, refl, sym, ap, subst, ◌∙◌, Bool, true, false,
  some-injective, Bool-cases, ◌⊎◌, ◌≢◌, ltb, inl, inr, Option, none, some, length, get_elem?, ◌==◌,
  if◌then◌else◌, arith,
}
use occams_rpc.Error.{RpcIntErr, method, int_err_lt}
use occams_rpc.Client.Failover.{
  ClusterConfig, FailoverTask, Next, to_worker, to_pool, to_owner, resent, retry_worker, seed_of,
  select,
}
use occams_rpc.Client.Failover.Select.{Picks, select-Picks, StartsAt, Selects, select_lem}

-- What the task meets at its next failure: the error, whether the retry channel is still open, and
-- the pools, the counter and the healths when the worker comes to it.
pub record Failure (P : Type 0) : Type 0 where
  pub error : RpcIntErr
  pub is_open : Bool
  pub rr_counter : ℕ
  pub cluster : Option (ClusterConfig P)
  pub is_healthy : P → Bool

module _ {P : Type 0} {T : Type 0} (set_inner : RpcIntErr → T → T) (round_robin : Bool)
    (retry_limit : ℕ) where
  abbrev pub handled : Failure P → Next T → Next T
  handled f (to_worker task) = (retry_worker f.is_healthy round_robin f.rr_counter f.cluster task).0
  handled f (to_pool i task) = to_pool i task
  handled f (to_owner x) = to_owner x

  -- Behind the last place, unless the cluster has changed or the places come to the end of usize.
  abbrev pub Behind : ClusterConfig P → FailoverTask T → ℕ → Type 0
  Behind c task i =
      (c.ver ≢ task.cluster_ver) ⊎ ((2 ^ 64 ≤ suc task.last_index) ⊎ (task.last_index < i))

  -- Where the task is sent again: to a healthy pool of the cluster, under the version of the cluster; and
  -- behind the place of the last pool, unless the cluster has changed meanwhile.
  abbrev pub SentTo : Failure P → FailoverTask T → ℕ → FailoverTask T → Type 0
  SentTo f task i next =
      (c : ClusterConfig P) × (p : P) × (f.cluster ≡ some c)
      × (next.cluster_ver ≡ c.ver)
      × (get_elem? c.pools (i % length c.pools) ≡ some p)
      × (f.is_healthy p ≡ true)
      × Behind c task i

  -- The last place tried, which counts while the cluster is the one that the task failed in.
  abbrev pub last_for : ClusterConfig P → FailoverTask T → Option ℕ
  last_for c task = if c.ver == task.cluster_ver then some task.last_index else none

  -- There is no cluster, or no pool of it is healthy, or the search for one comes to the end of usize.
  abbrev pub NoPool : Failure P → FailoverTask T → Type 0
  NoPool f task =
      (c : ClusterConfig P) (seed : ℕ)
      → f.cluster ≡ some c
      → StartsAt f.is_healthy c.pools round_robin f.rr_counter (last_for c task) seed
      → seed + length c.pools < 2 ^ 64
      → (j : ℕ) (p : P) → get_elem? c.pools j ≡ some p
      → f.is_healthy p ≡ false

  -- The task is sent again, for one more retry within the limit, only after an error of the transport;
  -- else, or without a healthy pool, its owner has it back. Either way it carries the error.
  abbrev pub Fails : Failure P → FailoverTask T → Next T → Type 0
  Fails f task (to_pool i next) =
      (int_err_lt f.error method ≡ true)
      × (f.is_open ≡ true)
      × (next.retry ≡ task.retry + 1)
      × (next.retry ≤ retry_limit)
      × (next.last_index ≡ i)
      × (next.inner ≡ set_inner f.error task.inner)
      × SentTo f task i next
  Fails f task (to_worker next) = ⊥
  Fails f task (to_owner x) =
      (x ≡ set_inner f.error task.inner)
      × ((int_err_lt f.error method ≡ false)
          ⊎ ((retry_limit < task.retry + 1) ⊎ ((f.is_open ≡ false) ⊎ NoPool f task)))

  -- What holds of the task when the worker has it.
  abbrev Retried : Failure P → FailoverTask T → FailoverTask T → Type 0
  Retried f task next =
      (int_err_lt f.error method ≡ true)
      × (f.is_open ≡ true)
      × (next.retry ≡ task.retry + 1)
      × (next.retry ≤ retry_limit)
      × (next.inner ≡ set_inner f.error task.inner)

  Behind-le :
      (c : ClusterConfig P) (task : FailoverTask T) (i j : ℕ)
      → i ≤ j
      → Behind c task i
      → Behind c task j
  Behind-le c task i j l (inl x) = inl x
  Behind-le c task i j l (inr (inl x)) = inr (inl x)
  Behind-le c task i j l (inr (inr x)) = inr (inr (omega (arith, l, x)))

  next_Behind :
      (c : ClusterConfig P) (task : FailoverTask T) (i : ℕ)
      → (suc task.last_index < 2 ^ 64 → task.last_index < i)
      → Behind c task i
  next_Behind c task i f = elim (Bool-cases (ltb (suc task.last_index) (2 ^ 64))) [
    | inl fits ↦ inr (inr (f (ground (arith, fits))))
    | inr over ↦ inr (inl (ground (arith, over)))
  ]

  resent-Fails :
      (f : Failure P) (task next : FailoverTask T) (c : ClusterConfig P) (seed : ℕ)
      (r : Option (ℕ × P)) (counter : ℕ)
      → Retried f task next
      → f.cluster ≡ some c
      → next.cluster_ver ≡ c.ver
      → Picks f.is_healthy c.pools seed r
      → Behind c task seed
      → (r ≡ none → NoPool f task)
      → Fails f task (resent {P = P} f.is_healthy round_robin next (r, counter)).0
  resent-Fails f task next k seed (some (i, p)) counter (a, b, c, d, e) g v (l, m, n) s w =
      (a, b, c, d, refl, e, (k, p, g, v, m, n, Behind-le k task seed i l s))
  resent-Fails f task next k seed none counter (a, b, c, d, e) g v q s w =
      (e, inr (inr (inr (w refl))))

  selected-NoPool :
      (f : Failure P) (task : FailoverTask T) (k : ClusterConfig P) (o : Option ℕ)
      → f.cluster ≡ some k
      → last_for k task ≡ o
      → (select f.is_healthy round_robin f.rr_counter o k.pools).0 ≡ none
      → NoPool f task
  selected-NoPool f task k o g l e c seed g' s h j p x =
      let same : c ≡ k = some-injective _ _ (sym g' ∙ g) in
      let starts =
        subst (λ y. StartsAt f.is_healthy k.pools round_robin f.rr_counter y seed) l
          (subst
            (λ y. StartsAt f.is_healthy y.pools round_robin f.rr_counter (last_for y task) seed)
            same s) in
      subst (λ r. Selects f.is_healthy k.pools seed r) e
        (select_lem f.is_healthy k.pools round_robin f.rr_counter o seed starts
          (subst (λ (y : ClusterConfig P). seed + length y.pools < 2 ^ 64) same h)).0
        j p (subst (λ (y : ClusterConfig P). get_elem? y.pools j ≡ some p) same x)

  -- The same cluster, or another one.
  last_for-same :
      (k : ClusterConfig P) (task next : FailoverTask T)
      → (k.ver == next.cluster_ver) ≡ true
      → next.cluster_ver ≡ task.cluster_ver
      → next.last_index ≡ task.last_index
      → last_for k task ≡ some next.last_index
  last_for-same k task next same v l =
      rw (subst (λ x. (k.ver == x) ≡ true) v same) (ap some (sym l))

  last_for-changed :
      (k : ClusterConfig P) (task next : FailoverTask T)
      → (k.ver == next.cluster_ver) ≡ false
      → next.cluster_ver ≡ task.cluster_ver
      → last_for k task ≡ none
  last_for-changed k task next changed v = rw (subst (λ x. (k.ver == x) ≡ false) v changed) refl

  pub handled-Fails :
      (f : Failure P) (task next : FailoverTask T)
      → Retried f task next
      → next.cluster_ver ≡ task.cluster_ver
      → next.last_index ≡ task.last_index
      → Fails f task (handled f (to_worker next))
  unfolding retry_worker
  handled-Fails f task next t v l = by_cluster f.cluster refl
    where
      by_cluster :
          (cluster : Option (ClusterConfig P))
          → f.cluster ≡ cluster
          → Fails f task (retry_worker f.is_healthy round_robin f.rr_counter cluster next).0
      by_cluster none g = (t.4, inr (inr (inr (λ c seed g'. absurd (ground (arith, g, g'))))))
      by_cluster (some k) g = elim (Bool-cases (k.ver == next.cluster_ver)) [
        | inl same ↦ rw same (
            resent-Fails f task next k ((next.last_index + 1) % 2 ^ 64)
              (select f.is_healthy round_robin f.rr_counter (some next.last_index) k.pools).0
              (select f.is_healthy round_robin f.rr_counter (some next.last_index) k.pools).1 t g
              (ground (arith, same))
              (select-Picks f.is_healthy k.pools round_robin f.rr_counter (some next.last_index))
              (next_Behind k task ((next.last_index + 1) % 2 ^ 64) (λ y. omega (arith, l, y)))
              (selected-NoPool f task k (some next.last_index) g
                (last_for-same k task next same v l)))
        | inr changed ↦ rw changed (
            resent-Fails f task (record next { cluster_ver = k.ver }) k
              (seed_of f.is_healthy round_robin f.rr_counter none).0
              (select f.is_healthy round_robin f.rr_counter none k.pools).0
              (select f.is_healthy round_robin f.rr_counter none k.pools).1 t g refl
              (select-Picks f.is_healthy k.pools round_robin f.rr_counter none)
              (inl (λ x. absurd (ground (arith, changed, x, v))))
              (selected-NoPool f task k none g (last_for-changed k task next changed v)))
      ]
