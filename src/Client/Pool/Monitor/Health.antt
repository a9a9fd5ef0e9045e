-- ===== src/Client/Pool/Monitor/Health.antt =====
-- The health of a `ClientPool` (stream/src/client/pool.rs).
use occams_rpc.Base.{zero, suc, ◌≡◌, refl, true, false}
use occams_rpc.Client.Pool.Monitor.{
  Crew, Step, send_req, drop_senders, spawn, connects, connect_fails, ping_fails, ping_fails_alone,
  monitor_ends, monitor_sends, monitor_hands_on, worker_sends, worker_flushes, worker_ends, Reach,
  start, later,
}

module _ {T : Type 0} where
  unhealthy_step : {c c' : Crew T} → Step c c' → c.pool.is_ok ≡ false → c'.pool.is_ok ≡ false
  unhealthy_step (send_req t s) h = h
  unhealthy_step drop_senders h = h
  unhealthy_step (spawn s) h = h
  unhealthy_step (connects zero xs ys e) h = h
  unhealthy_step (connects (suc n) xs ys e) h = h
  unhealthy_step (connect_fails n xs ys e) h = refl
  unhealthy_step (ping_fails xs ys e) h = refl
  unhealthy_step (ping_fails_alone xs ys e) h = refl
  unhealthy_step (monitor_ends xs ys e s q) h = h
  unhealthy_step (monitor_sends xs ys t q true e r) h = h
  unhealthy_step (monitor_sends xs ys t q false e r) h = refl
  unhealthy_step (monitor_hands_on xs ys t q true e r n) h = h
  unhealthy_step (monitor_hands_on xs ys t q false e r n) h = refl
  unhealthy_step (worker_sends n xs ys t q true e r) h = h
  unhealthy_step (worker_sends n xs ys t q false e r) h = refl
  unhealthy_step (worker_flushes n xs ys true e) h = h
  unhealthy_step (worker_flushes n xs ys false e) h = refl
  unhealthy_step (worker_ends n xs ys e s q) h = h

  -- A pool that was once not healthy is never healthy again, whatever its workers do later, also when
  -- they connect and send.
  pub unhealthy_forever :
      {c c' : Crew T} → Reach c c' → c.pool.is_ok ≡ false → c'.pool.is_ok ≡ false
  unhealthy_forever start h = h
  unhealthy_forever (later r s) h = unhealthy_step s (unhealthy_forever r h)
