-- ===== src/Client/Failover/Retry.antt =====
-- The life of a task that fails at one pool after the other (stream/src/client/failover.rs): from the
-- error at a pool, through `set_rpc_error` and `error_handle`, to the retry worker and the next pool.
use occams_rpc.Base.{
  ℕ, suc, ◌+◌, ◌-◌, ◌≤◌, ◌<◌, refl, Bool, Bool-cases, inl, inr, Option, none, some, List, [], ◌∷◌,
  length, leb, arith,
}
use occams_rpc.Error.{RpcIntErr, method, int_err_lt}
use occams_rpc.Client.Failover.{
  FailoverTask, Next, to_worker, to_pool, to_owner, set_rpc_error, error_handle,
}
use occams_rpc.Client.Failover.Resend.{Failure, handled, Fails, handled-Fails}

module _ {T : Type 0} where
  abbrev counted : (FailoverTask T → ℕ) → Next T → ℕ
  counted more (to_pool i task) = suc (more task)
  counted more (to_worker task) = 0
  counted more (to_owner x) = 0

  abbrev ended : (FailoverTask T → Option T) → Next T → Option T
  ended more (to_pool i task) = more task
  ended more (to_worker task) = none
  ended more (to_owner x) = some x

  abbrev pub IsBack : Option T → Type 0
  IsBack none = ⊥
  IsBack (some x) = Unit

module _ {P : Type 0} {T : Type 0} (set_inner : RpcIntErr → T → T) (round_robin : Bool)
    (retry_limit : ℕ) where
  -- One failure, up to the next pool or the end.
  abbrev pub failed : Failure P → FailoverTask T → Next T
  failed f task =
      handled set_inner round_robin retry_limit f
        (error_handle retry_limit f.is_open (set_rpc_error set_inner f.error task))

  -- How often the task is sent again.
  abbrev pub resends : List (Failure P) → FailoverTask T → ℕ
  resends [] task = 0
  resends (f ∷ fs) task = counted (resends fs) (failed f task)

  -- What the owner gets back, once it does.
  abbrev pub fate : List (Failure P) → FailoverTask T → Option T
  fate [] task = none
  fate (f ∷ fs) task = ended (fate fs) (failed f task)

  -- After a failure the task is sent again, with one more retry that is within the limit, exactly if the
  -- error is one of the transport (Unreachable, IO or Timeout), the worker still runs, and it finds a
  -- healthy pool, which it does if there is one, as long as the places that it looks at are a usize; in
  -- every other case its owner has the task back. Either way the task carries this error. It is sent to
  -- a healthy pool of the cluster, under the cluster's version, and, while the cluster is the one that
  -- it failed in and the next place is a usize, at a place behind the last one: which, counted around
  -- the ring, is the same pool again when no other is healthy.
  pub failed-Fails :
      (f : Failure P) (task : FailoverTask T)
      → Fails set_inner round_robin retry_limit f task (failed f task)
  unfolding set_rpc_error error_handle
  failed-Fails f task = elim (Bool-cases (int_err_lt f.error method)) [
    | inl transport ↦ rw transport (elim (Bool-cases (leb (task.retry + 1) retry_limit)) [
      | inl within ↦ rw within (elim (Bool-cases f.is_open) [
        | inl is_open ↦ simp is_open (
            handled-Fails set_inner round_robin retry_limit f task _
              (transport, is_open, refl, ground (arith, within), refl) refl refl)
        | inr is_closed ↦ simp is_closed (refl, inr (inr (inl refl)))
      ])
      | inr beyond ↦ rw beyond (refl, inr (inl (ground (arith, beyond))))
    ])
    | inr other ↦ rw other (refl, inl other)
  ]

  counted-le :
      (f : Failure P) (task : FailoverTask T) (next : Next T) (more : FailoverTask T → ℕ)
      → ((t : FailoverTask T) → more t ≤ retry_limit - t.retry)
      → Fails set_inner round_robin retry_limit f task next
      → counted more next ≤ retry_limit - task.retry
  counted-le f task (to_pool i t) more h x = omega (arith, h t, x.2, x.3)
  counted-le f task (to_worker t) more h x = omega arith
  counted-le f task (to_owner t) more h x = omega arith

  -- However often it fails, a task is sent again at most as often as the limit leaves retries.
  pub resends-le :
      (fs : List (Failure P)) (task : FailoverTask T) → resends fs task ≤ retry_limit - task.retry
  resends-le [] task = omega arith
  resends-le (f ∷ fs) task =
      counted-le f task (failed f task) (resends fs) (resends-le fs) (failed-Fails f task)

  ended-IsBack :
      (n : ℕ) (f : Failure P) (task : FailoverTask T) (next : Next T)
      (more : FailoverTask T → Option T)
      → ((t : FailoverTask T) → retry_limit - t.retry < n → IsBack (more t))
      → retry_limit - task.retry < suc n
      → Fails set_inner round_robin retry_limit f task next
      → IsBack (ended more next)
  ended-IsBack n f task (to_pool i t) more h g x = h t (omega (arith, g, x.2, x.3))
  ended-IsBack n f task (to_worker t) more h g x = x
  ended-IsBack n f task (to_owner t) more h g x = tt

  -- A task that fails more often than the limit leaves retries comes back to its owner.
  pub fate-IsBack :
      (fs : List (Failure P)) (task : FailoverTask T)
      → retry_limit - task.retry < length fs
      → IsBack (fate fs task)
  fate-IsBack [] task h = absurd (omega (arith, h))
  fate-IsBack (f ∷ fs) task h =
      ended-IsBack (length fs) f task (failed f task) (fate fs) (fate-IsBack fs) h
        (failed-Fails f task)
