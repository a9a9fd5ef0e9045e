-- ===== src/Server/Conn/Written.antt =====
-- The writer of a connection (stream/src/server/server.rs) puts each answer on the wire whole, in the
-- order in which it takes them.
use occams_rpc.Base.{
  ℕ, ◌≤◌, ◌≡◌, refl, sym, ap, ◌∙◌, Bool, true, false, List, [], ◌∷◌, ◌++◌, arith, append-nil,
  length, take, ltb,
}
use occams_rpc.Base.Result.{ok, err}
use occams_rpc.Io.{Sink}
use occams_rpc.Io.Write.{Done, Buffered, flush, content_buffered}
use occams_rpc.Io.Write.Front.{ValidBuffered, Flushed, flush_lem}
use occams_rpc.Proto.{rpc_resp_header_len}
use occams_rpc.Proto.Layout.{ByteOrder}
use occams_rpc.Server.Conn.{
  Dispatch, Writer, receiving, draining, writing, flushing, closed, failed, Conn, listens, takes,
  fails, processed, flushed, process, Step, read, returns, done, drop, next, writes, drained,
  flushes, closes, Reach, start, later, server_conn,
}
use occams_rpc.Server.Conn.Wire.{
  answer_bytes, Wire, nothing, behind, KeepsWriter, sent_to-KeepsWriter, reader_round-KeepsWriter,
  handler_returns-KeepsWriter,
}
use occams_rpc.Server.Task.{Answer}
use occams_rpc.Tcp.Server.{read_req}
use occams_rpc.Tcp.Write.{close_conn}
use occams_rpc.Tcp.Write.Delivery.{Delivers, write_resp_lem, write_resp_internal_lem}

takes-runs : {R : Type 0} (w : Writer R) → takes w ≡ true → ¬ (w ≡ failed)
takes-runs receiving t e = ground arith
takes-runs draining t e = ground arith
takes-runs (writing a) t e = ground arith
takes-runs flushing t e = ground arith
takes-runs closed t e = ground arith
takes-runs failed t e = ground arith

module _ {S T R : Type 0} (d : Dispatch T R) (snk : Sink S) (fuel : ℕ) (le : ByteOrder) where
  open snk use {content, Valid}

  -- The writer has accepted the bytes of these answers and no others.
  abbrev Holds : List (Answer R) → Buffered S → Type 0
  Holds sent w =
      (b : List ℕ) × Wire d le sent b × (content_buffered snk fuel w ≡ b) × ValidBuffered snk fuel w

  -- Unless the writer has failed, it holds what was sent, and outside of its loop nothing waits in the
  -- buffer.
  pub record IsWritten (c : Conn S T R) : Type 0 where
    pub holds : ¬ (c.writer ≡ failed) → Holds c.sent c.out
    pub flat : takes c.writer ≡ true → ¬ (c.writer ≡ draining) → c.out.front.pos ≡ 0
    pub arrived : c.writer ≡ closed → (b : List ℕ) × Wire d le c.sent b × (content c.out.inner ≡ b)

  KeepsWriter-IsWritten : (c c' : Conn S T R) → KeepsWriter c c' → IsWritten c → IsWritten c'
  KeepsWriter-IsWritten c c' k h = record {
    holds = rw (k.same_writer, k.same_out, k.same_sent) h.holds;
    flat = rw (k.same_writer, k.same_out) h.flat;
    arrived = rw (k.same_writer, k.same_out, k.same_sent) h.arrived;
  }

  process-Delivers :
      (mem : List ℕ) (a : Answer R) (w : Buffered S)
      → ValidBuffered snk fuel w
      → Delivers snk fuel (answer_bytes d le mem a) false w (process d snk fuel le mem a w)
  process-Delivers mem (ok r) w v = write_resp_lem snk fuel le mem (d.encode r) w v
  process-Delivers mem (err (seq, e)) w v = write_resp_internal_lem snk fuel le mem seq e w v

  fails-IsWritten :
      (w : Buffered S) (l : List (Answer R)) (c : Conn S T R) → IsWritten (fails w l c)
  fails-IsWritten w l c = record {
    holds = λ n. absurd (n refl);
    flat = λ t. absurd (ground arith);
    arrived = λ e. absurd (ground arith);
  }

  processed-IsWritten :
      (mem : List ℕ) (a : Answer R) (r : Done × Buffered S) (c : Conn S T R)
      → rpc_resp_header_len ≤ length mem
      → Delivers snk fuel (answer_bytes d le mem a) false c.out r
      → Holds c.sent c.out
      → IsWritten (processed a r c)
  processed-IsWritten mem a (ok u, w) c room x (b, o, e, v) = record {
    holds = λ n. (
      b ++ answer_bytes d le mem a,
      behind o a mem room,
      x.0 ∙ ap (λ y. y ++ answer_bytes d le mem a) e,
      x.1,
    );
    flat = λ t n. absurd (n refl);
    arrived = λ y. absurd (ground arith);
  }
  processed-IsWritten mem a (err y, w) c room x h = fails-IsWritten w (a ∷ c.queue) c

  -- What an empty front holds is what the writer has.
  flat_content : (w : Buffered S) → w.front.pos ≡ 0 → content_buffered snk fuel w ≡ content w.inner
  flat_content w z = rw z (append-nil (content w.inner))

  flushed-IsWritten :
      (r : Done × Buffered S) (c : Conn S T R)
      → Flushed snk fuel c.out r
      → Holds c.sent c.out
      → IsWritten (flushed r c)
  flushed-IsWritten (ok u, w) c f (b, o, e, v) = record {
    holds = λ n. (b, o, flat_content w f.1 ∙ (f.0 ∙ e), f.3);
    flat = λ t n. f.1;
    arrived = λ y. absurd (ground arith);
  }
  flushed-IsWritten (err y, w) c f h = fails-IsWritten w c.queue c

  -- A connection whose buffer is empty is shut down with what its writer has.
  module _ (shutdown_write : S → S)
      (shutdown-content : (s : S)
        → Valid s
        → (content (shutdown_write s) ≡ content s) × Valid (shutdown_write s)) where
    close_conn-flat :
        (w : Buffered S)
        → w.front.pos ≡ 0
        → close_conn snk fuel shutdown_write w ≡ record w { inner = shutdown_write w.inner }
    unfolding close_conn flush
    close_conn-flat w z = let n : ltb 0 w.front.pos ≡ false = ground arith in rw n refl

    closes-IsWritten :
        (c : Conn S T R)
        → c.writer ≡ receiving
        → IsWritten c
        → IsWritten (record c { writer = closed; out = close_conn snk fuel shutdown_write c.out })
    closes-IsWritten c e h =
        let z = h.flat (ap takes e) (λ x. ground arith) in
        let (b, o, x, v) = h.holds (λ y. ground arith) in
        let (k, u) = shutdown-content c.out.inner v.1 in
        rw (close_conn-flat c.out z) (record {
          holds = λ n. (b, o, ap (λ y. y ++ take c.out.front.pos c.out.front.mem) k ∙ x, (v.0, u));
          flat = λ t n. z;
          arrived = λ y. (b, o, k ∙ (sym (flat_content c.out z) ∙ x));
        })

    module _ (alloc : ℕ → Bool) where
      Step-IsWritten :
          {c c' : Conn S T R}
          → Step d snk fuel le alloc shutdown_write c c'
          → IsWritten c
          → IsWritten c'
      Step-IsWritten {c} (read cancelled r) h =
          KeepsWriter-IsWritten c _
            (reader_round-KeepsWriter d (read_req alloc le cancelled c.input) c) h
      Step-IsWritten {c} (returns seq b r) h =
          KeepsWriter-IsWritten c _ (handler_returns-KeepsWriter seq b c) h
      Step-IsWritten {c} (done xs ys t r e s) h =
          let k = sent_to-KeepsWriter (listens c.writer) (ok r) (record c { held = xs ++ ys }) in
          KeepsWriter-IsWritten c _
            (record { same_writer = k.same_writer; same_out = k.same_out; same_sent = k.same_sent })
            h
      Step-IsWritten (drop xs ys t e) h = record {
        holds = h.holds;
        flat = h.flat;
        arrived = h.arrived;
      }
      Step-IsWritten {c} (next a q t e) h = record {
        holds = λ n. h.holds (takes-runs c.writer t);
        flat = λ x n. absurd (ground arith);
        arrived = λ x. absurd (ground arith);
      }
      Step-IsWritten {c} (writes mem a e r) h =
          let o = h.holds (λ y. ground arith) in
          processed-IsWritten mem a (process d snk fuel le mem a c.out) c r
            (process-Delivers mem a c.out o.3) o
      Step-IsWritten {c} (drained e q) h = record {
        holds = λ n. h.holds (λ y. ground arith);
        flat = λ x n. absurd (ground arith);
        arrived = λ x. absurd (ground arith);
      }
      Step-IsWritten {c} (flushes e) h =
          let o = h.holds (λ y. ground arith) in
          flushed-IsWritten (flush snk fuel c.out) c (flush_lem snk fuel c.out o.3) o
      Step-IsWritten {c} (closes e q r t) h = closes-IsWritten c e h

      -- On a fresh connection, whatever the reader, the tasks and the writer do and in whatever order, as
      -- long as no write has failed: the writer has accepted exactly the answers that were sent, each
      -- whole and in the order in which they were taken from the channel; and when it has closed the
      -- connection, these are the bytes that the other end has. The conditions: the writer is in order
      -- and holds nothing, and shutting a stream down leaves its bytes.
      pub Reach-IsWritten :
          (input : List ℕ) (out : Buffered S) {c : Conn S T R}
          → ValidBuffered snk fuel out
          → content out.inner ≡ []
          → out.front.pos ≡ 0
          → Reach d snk fuel le alloc shutdown_write (server_conn input out) c
          → IsWritten c
      Reach-IsWritten input out v e z start = record {
        holds = λ n. ([], nothing, flat_content out z ∙ e, v);
        flat = λ t n. z;
        arrived = λ y. absurd (ground arith);
      }
      Reach-IsWritten input out v e z (later r s) =
          Step-IsWritten s (Reach-IsWritten input out v e z r)
