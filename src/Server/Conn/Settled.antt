-- ===== src/Server/Conn/Settled.antt =====
-- What holds of the answers of a connection (stream/src/server/server.rs) while its writer runs.
use occams_rpc.Base.{ℕ, ◌≡◌, refl, sym, ◌∙◌, Bool, true, false, Option, List, [], ◌∷◌, ◌++◌, arith}
use occams_rpc.Base.Result.{err}
use occams_rpc.Error.{RpcIntErr}
use occams_rpc.Io.Write.{Buffered}
use occams_rpc.Server.Conn.{
  Reader, reading, handling, stopped, Writer, receiving, draining, writing, flushing, closed,
  failed, Conn, listens, takes, sent_to, quick_to, fails,
}
use occams_rpc.Server.Task.{Answer}

pub takes-listens : {R : Type 0} (w : Writer R) → takes w ≡ true → listens w ≡ true
takes-listens receiving e = refl
takes-listens draining e = refl
takes-listens (writing a) e = ground arith
takes-listens flushing e = ground arith
takes-listens closed e = ground arith
takes-listens failed e = ground arith

module _ {S T R : Type 0} where
  -- No answer is lost while the writer runs, and one that closes the connection leaves nothing behind.
  pub record IsSettled (c : Conn S T R) : Type 0 where
    pub open_lost : listens c.writer ≡ true → c.lost ≡ []
    pub closed_reader : c.writer ≡ closed → c.reader ≡ stopped
    pub closed_held : c.writer ≡ closed → c.held ≡ []
    pub closed_queue : c.writer ≡ closed → c.queue ≡ []
    pub closed_lost : c.writer ≡ closed → c.lost ≡ []

  pub sent_to-IsSettled :
      (b : Bool) (a : Answer R) (c : Conn S T R)
      → listens c.writer ≡ b
      → ¬ (c.writer ≡ closed)
      → IsSettled c
      → IsSettled (sent_to b a c)
  sent_to-IsSettled true a c e n h = record {
    open_lost = h.open_lost;
    closed_reader = h.closed_reader;
    closed_held = h.closed_held;
    closed_queue = λ x. absurd (n x);
    closed_lost = h.closed_lost;
  }
  sent_to-IsSettled false a c e n h = record {
    open_lost = λ x. ground arith;
    closed_reader = h.closed_reader;
    closed_held = h.closed_held;
    closed_queue = h.closed_queue;
    closed_lost = λ x. absurd (n x);
  }

  -- The reader moves on while the writer has not closed the connection.
  pub moved-IsSettled :
      (r : Reader) (c : Conn S T R)
      → ¬ (c.writer ≡ closed)
      → IsSettled c
      → IsSettled (record c { reader = r })
  moved-IsSettled r c n h = record {
    open_lost = h.open_lost;
    closed_reader = λ x. absurd (n x);
    closed_held = h.closed_held;
    closed_queue = h.closed_queue;
    closed_lost = h.closed_lost;
  }

  pub quick_to-IsSettled :
      (b : Bool) (seq : ℕ) (e : Option RpcIntErr) (c : Conn S T R)
      → listens c.writer ≡ b
      → ¬ (c.writer ≡ closed)
      → IsSettled c
      → IsSettled (quick_to b seq e c)
  quick_to-IsSettled true seq e c l n h =
      let s = sent_to-IsSettled true (err (seq, e)) c l n h in
      moved-IsSettled reading (sent_to true (err (seq, e)) c) n s
  quick_to-IsSettled false seq e c l n h =
      let s = sent_to-IsSettled false (err (seq, e)) c l n h in
      moved-IsSettled stopped (sent_to false (err (seq, e)) c) n s

  -- A state in which only the writer has moved, and not to its end.
  pub runs-IsSettled :
      (w : Writer R) (q : List (Answer R)) (o : Buffered S) (s : List (Answer R)) (c : Conn S T R)
      → listens c.writer ≡ true
      → ¬ (w ≡ closed)
      → IsSettled c
      → IsSettled (record c { writer = w; queue = q; out = o; sent = s })
  runs-IsSettled w q o s c l n h = record {
    open_lost = λ x. h.open_lost l;
    closed_reader = λ x. absurd (n x);
    closed_held = λ x. absurd (n x);
    closed_queue = λ x. absurd (n x);
    closed_lost = λ x. absurd (n x);
  }

  pub fails-IsSettled :
      (w : Buffered S) (l : List (Answer R)) (c : Conn S T R) → IsSettled (fails w l c)
  fails-IsSettled w l c = record {
    open_lost = λ x. ground arith;
    closed_reader = λ x. ground arith;
    closed_held = λ x. ground arith;
    closed_queue = λ x. ground arith;
    closed_lost = λ x. ground arith;
  }

  pub reading-open : (c : Conn S T R) → c.reader ≡ reading → IsSettled c → ¬ (c.writer ≡ closed)
  reading-open c e h x = let s = h.closed_reader x in ground arith

  pub handling-open :
      (seq : ℕ) (c : Conn S T R) → c.reader ≡ handling seq → IsSettled c → ¬ (c.writer ≡ closed)
  handling-open seq c e h x = let s = h.closed_reader x in ground arith

  pub held-open :
      (xs ys : List T) (t : T) (c : Conn S T R)
      → c.held ≡ xs ++ (t ∷ ys)
      → IsSettled c
      → ¬ (c.writer ≡ closed)
  held-open xs ys t c e h x = behind xs (sym (h.closed_held x) ∙ e)
    where
      behind : (zs : List T) → [] ≡ zs ++ (t ∷ ys) → ⊥
      behind [] p = ground arith
      behind (z ∷ zs) p = ground arith

  pub taken-IsSettled :
      (held : List T) (asked dropped refused : List ℕ) (input : List ℕ) (r : Reader)
      (c : Conn S T R)
      → ¬ (c.writer ≡ closed)
      → IsSettled c
      → IsSettled (record c {
        held = held;
        asked = asked;
        dropped = dropped;
        refused = refused;
        input = input;
        reader = r;
      })
  taken-IsSettled held asked dropped refused input r c n h = record {
    open_lost = h.open_lost;
    closed_reader = λ x. absurd (n x);
    closed_held = λ x. absurd (n x);
    closed_queue = λ x. absurd (n x);
    closed_lost = λ x. absurd (n x);
  }
