-- ===== src/Server/Conn/Drain.antt =====
-- The writer of a connection (stream/src/server/server.rs) comes to its end behind the reader and the
-- tasks.
use occams_rpc.Base.{
  ℕ, zero, suc, ◌+◌, ◌*◌, ◌≤◌, ◌<◌, ◌≡◌, refl, ap, Bool, true, false, Bool-cases, inl, inr, List,
  [], ◌∷◌, ◌++◌, arith, length, replicate,
}
use occams_rpc.Base.Result.{ok, err}
use occams_rpc.Io.{Sink}
use occams_rpc.Io.Write.{Done, Buffered, flush}
use occams_rpc.Proto.Layout.{ByteOrder}
use occams_rpc.Server.Conn.{
  Dispatch, stopped, Writer, receiving, draining, writing, flushing, closed, failed, Conn, listens,
  takes, processed, flushed, process, Step, read, returns, done, drop, next, writes, drained,
  flushes, closes,
}
use occams_rpc.Server.Task.{Answer}

-- What is left to the writer at each place, and in all.
abbrev phase : {R : Type 0} → Writer R → ℕ
phase (writing a) = 4
phase draining = 3
phase flushing = 2
phase receiving = 1
phase closed = 0
phase failed = 0

abbrev pub work : {S T R : Type 0} → Conn S T R → ℕ
work c = 4 * length c.queue + phase c.writer

phase-le : {R : Type 0} (w : Writer R) → phase w ≤ 4
phase-le (writing a) = omega arith
phase-le draining = omega arith
phase-le flushing = omega arith
phase-le receiving = omega arith
phase-le closed = omega arith
phase-le failed = omega arith

-- The reader has ended, and no task is held: no sender of the channel is left.
abbrev pub HasNoSender : {S T R : Type 0} → Conn S T R → Type 0
HasNoSender c = (c.reader ≡ stopped) × (c.held ≡ [])

abbrev pub Calms : {S T R : Type 0} → Conn S T R → Conn S T R → Type 0
Calms c c' = HasNoSender c' × (work c' < work c)

not_held : {T : Type 0} (c xs ys : List T) (t : T) → c ≡ [] → c ≡ xs ++ (t ∷ ys) → ⊥
not_held c [] ys t h e = ground arith
not_held c (x ∷ xs) ys t h e = ground arith

module _ {S T R : Type 0} where
  processed-Calms :
      (a : Answer R) (r : Done × Buffered S) (c : Conn S T R)
      → c.writer ≡ writing a
      → HasNoSender c
      → Calms c (processed a r c)
  processed-Calms a (ok u, w) c e h = (h, omega (arith, ap phase e))
  processed-Calms a (err x, w) c e h = (h, omega (arith, ap phase e))

  flushed-Calms :
      (r : Done × Buffered S) (c : Conn S T R)
      → c.writer ≡ flushing
      → HasNoSender c
      → Calms c (flushed r c)
  flushed-Calms (ok u, w) c e h = (h, omega (arith, ap phase e))
  flushed-Calms (err x, w) c e h = (h, omega (arith, ap phase e))

module _ {S T R : Type 0} (d : Dispatch T R) (snk : Sink S) (fuel : ℕ) (le : ByteOrder)
    (alloc : ℕ → Bool) (shutdown_write : S → S) where
  -- A run of so many steps.
  pub data Run : ℕ → Conn S T R → Conn S T R → Type 0 where
    stay : {c : Conn S T R} → Run 0 c c
    go :
        {n : ℕ} {c u v : Conn S T R}
        → Step d snk fuel le alloc shutdown_write c u
        → Run n u v
        → Run (suc n) c v

  Step-Calms :
      {c c' : Conn S T R}
      → Step d snk fuel le alloc shutdown_write c c'
      → HasNoSender c
      → Calms c c'
  Step-Calms (read cancelled r) h = absurd (ground arith)
  Step-Calms (returns seq b r) h = absurd (ground arith)
  Step-Calms {c} (done xs ys t r e s) h = absurd (not_held c.held xs ys t h.1 e)
  Step-Calms {c} (drop xs ys t e) h = absurd (not_held c.held xs ys t h.1 e)
  Step-Calms {c} (next a q t e) h = (h, taken c.writer t)
    where
      taken : (w : Writer R) → takes w ≡ true → 4 * length q + 4 < 4 * length c.queue + phase w
      taken receiving p = omega (arith, ap length e)
      taken draining p = omega (arith, ap length e)
      taken (writing b) p = absurd (ground arith)
      taken flushing p = absurd (ground arith)
      taken closed p = absurd (ground arith)
      taken failed p = absurd (ground arith)
  Step-Calms {c} (writes mem a e r) h = processed-Calms a (process d snk fuel le mem a c.out) c e h
  Step-Calms (drained e q) h = (h, omega (arith, ap phase e))
  Step-Calms {c} (flushes e) h = flushed-Calms (flush snk fuel c.out) c e h
  Step-Calms (closes e q r t) h = (h, omega (arith, ap phase e))

  -- Some step can be taken while the writer runs.
  step_on :
      (c : Conn S T R) (w : Writer R) (q : List (Answer R))
      → c.writer ≡ w
      → c.queue ≡ q
      → HasNoSender c
      → listens w ≡ true
      → (c' : Conn S T R) × Step d snk fuel le alloc shutdown_write c c'
  step_on c receiving [] e f h l = (_, closes e f h.0 h.1)
  step_on c receiving (a ∷ q) e f h l = (_, next a q (ap takes e) f)
  step_on c draining [] e f h l = (_, drained e f)
  step_on c draining (a ∷ q) e f h l = (_, next a q (ap takes e) f)
  step_on c (writing a) q e f h l = (_, writes (replicate 20 0) a e (omega arith))
  step_on c flushing q e f h l = (_, flushes e)
  step_on c closed q e f h l = absurd (ground arith)
  step_on c failed q e f h l = absurd (ground arith)

  Run-work :
      {n : ℕ} {c c' : Conn S T R}
      → Run n c c'
      → HasNoSender c
      → HasNoSender c' × (n + work c' ≤ work c)
  Run-work stay h = (h, omega arith)
  Run-work (go s r) h =
      let k = Step-Calms s h in let m = Run-work r k.0 in (m.0, omega (arith, k.1, m.1))

  -- The end of a run from here.
  abbrev pub Ends : Conn S T R → Type 0
  Ends c = (n : ℕ) × (c' : Conn S T R) × Run n c c' × (listens c'.writer ≡ false)

  work-Ends : (k : ℕ) (c : Conn S T R) → work c ≤ k → HasNoSender c → Ends c
  work-Ends zero c b h = elim (Bool-cases (listens c.writer)) [
    | inl e ↦
        let (c', s) = step_on c c.writer c.queue refl refl h e in
        absurd (omega (arith, (Step-Calms s h).1))
    | inr e ↦ (0, c, stay, e)
  ]
  work-Ends (suc k) c b h = elim (Bool-cases (listens c.writer)) [
    | inl e ↦
        let (c', s) = step_on c c.writer c.queue refl refl h e in
        let i = Step-Calms s h in
        let (n, v, r, x) = work-Ends k c' (omega (arith, i.1)) i.0 in (suc n, v, go s r, x)
    | inr e ↦ (0, c, stay, e)
  ]

  -- Behind the reader and the last task the writer always comes to its end: every run has at most four
  -- steps for each answer in the channel and four more, and each state that a run comes to goes on to
  -- one in which the writer has closed the connection or failed.
  pub drains :
      (c : Conn S T R)
      → HasNoSender c
      → (n : ℕ) (c' : Conn S T R) → Run n c c'
      → (n ≤ 4 * length c.queue + 4) × Ends c'
  drains c h n c' r =
      let (k, l) = Run-work r h in
      (omega (arith, l, phase-le c.writer), work-Ends (work c') c' (omega arith) k)
