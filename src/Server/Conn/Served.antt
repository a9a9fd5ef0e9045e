-- ===== src/Server/Conn/Served.antt =====
-- From the server's writer (stream/src/server/server.rs) to the client's reader
-- (transport/tcp/src/client.rs): all the answers of a connection, one behind the other.
use occams_rpc.Base.{
  ℕ, ◌≤◌, ◌≡◌, sym, ap, subst, ◌∙◌, Bool, true, Option, some, none, List, [], ◌∷◌, ◌++◌, length,
  append_assoc, append-nil,
}
use occams_rpc.Base.Int.{IsU64}
use occams_rpc.Base.Result.{ok, err}
use occams_rpc.Error.{RpcIntErr, EncodedErr}
use occams_rpc.Io.{Sink}
use occams_rpc.Io.Write.{Buffered}
use occams_rpc.Io.Write.Front.{ValidBuffered}
use occams_rpc.Proto.{encode_resp, opt_length, u32_max, i32_max, rpc_resp_header_len}
use occams_rpc.Proto.Layout.{ByteOrder}
use occams_rpc.Proto.Response.{Succeeds, Fails, encode_resp_err}
use occams_rpc.Server.Conn.{Dispatch, Conn, closed, Reach, server_conn}
use occams_rpc.Server.Conn.Wire.{answer_bytes, Wire, nothing, behind}
use occams_rpc.Server.Conn.Written.{Reach-IsWritten}
use occams_rpc.Server.Task.{Answer}
use occams_rpc.Tcp.Client.{Tasks, TaskEnd, ended_ok, returned, read_resp}
use occams_rpc.Tcp.Client.ResponseTrip.{
  IsSmall, end_of, read_resp-encode_resp_ok, read_resp-encode_resp_err,
}
use occams_rpc.Tcp.Client.InternalTrip.{internal_end, IsExpected, read_resp-encode_internal}
use occams_rpc.Tcp.RequestTrip.{opt_bytes, nonempty}

-- What a response does to the tasks of the client.
abbrev pub End : Type 0
End = Option (ℕ × TaskEnd)

-- The later ends come first.
abbrev pub onto : List End → List End → List End
onto [] later = later
onto (o ∷ os) later = onto os (o ∷ later)

module _ (t : Tasks) (le : ByteOrder) where
  -- The client reads response after response.
  pub data ReadsAll : List ℕ → List End → List ℕ → Type 0 where
    nothing_more : {s : List ℕ} → ReadsAll s [] s
    one_more :
        {s u v : List ℕ} {o : End} {os : List End}
        → read_resp t le s ≡ returned (ok true) o u
        → ReadsAll u os v
        → ReadsAll s (o ∷ os) v

  module _ {T R : Type 0} (d : Dispatch T R) where
    -- How an answer within the limits ends the client's task.
    pub data Ends : Answer R → End → Type 0 where
      well :
          (r : R) (msg : List ℕ) (blob : Option (List ℕ))
          → Succeeds (d.encode r) (d.resp_seq r) msg blob
          → IsU64 (d.resp_seq r)
          → length msg ≤ u32_max
          → opt_length blob ≤ i32_max
          → t.registered (d.resp_seq r) ≡ true
          → t.reserves (opt_length blob) ≡ true
          → t.decodes msg ≡ true
          → Ends (ok r) (some (d.resp_seq r, ended_ok msg (nonempty blob)))
      ill :
          (r : R) (e : EncodedErr)
          → Fails (d.encode r) (d.resp_seq r) [] e
          → IsU64 (d.resp_seq r)
          → IsSmall e
          → t.registered (d.resp_seq r) ≡ true
          → Ends (ok r) (some (d.resp_seq r, end_of e))
      quick :
          (seq : ℕ) (e : Option RpcIntErr)
          → IsU64 seq
          → IsExpected (t.registered seq) e
          → Ends (err (seq, e)) (internal_end (t.registered seq) seq e)

    pub data AllEnd : List (Answer R) → List End → Type 0 where
      none_left : AllEnd [] []
      and_one :
          {a : Answer R} {o : End} {sent : List (Answer R)} {os : List End}
          → Ends a o
          → AllEnd sent os
          → AllEnd (a ∷ sent) (o ∷ os)

    read_resp-answer_bytes :
        {a : Answer R} {o : End}
        → Ends a o
        → (mem rest : List ℕ) → rpc_resp_header_len ≤ length mem
        → read_resp t le (answer_bytes d le mem a ++ rest) ≡ returned (ok true) o rest
    read_resp-answer_bytes (well r msg blob s u m b reg res dec) mem rest room =
        let (buf, n, x) = encode_resp le mem (d.encode r) in
        ap (read_resp t le) (append_assoc buf (opt_bytes x) rest)
        ∙ read_resp-encode_resp_ok t le mem (d.encode r) (d.resp_seq r) msg blob rest room u s m b
            reg res dec
    read_resp-answer_bytes (ill r e f u s reg) mem rest room =
        let (buf, n, x) = encode_resp le mem (d.encode r) in
        let no_blob : x ≡ none =
          ap (λ y. y.2) (encode_resp_err le mem (d.encode r) (d.resp_seq r) [] e room f) in
        ap (λ y. read_resp t le ((buf ++ opt_bytes y) ++ rest)) no_blob
        ∙ (ap (λ y. read_resp t le (y ++ rest)) (append-nil buf)
            ∙ read_resp-encode_resp_err t le mem (d.encode r) (d.resp_seq r) e rest room u f s reg)
    read_resp-answer_bytes (quick seq e u x) mem rest room =
        read_resp-encode_internal le mem t seq e rest room u x

    ReadsAll-Wire :
        {sent : List (Answer R)} {b : List ℕ} {os : List End}
        → Wire d le sent b
        → AllEnd sent os
        → (rest : List ℕ) (later : List End) (left : List ℕ) → ReadsAll rest later left
        → ReadsAll (b ++ rest) (onto os later) left
    ReadsAll-Wire nothing none_left rest later left r = r
    ReadsAll-Wire (behind {b} w a mem room) (and_one {o} e es) rest later left r =
        let s = answer_bytes d le mem a in
        rw (append_assoc b s rest) (
          ReadsAll-Wire w es (s ++ rest) (o ∷ later) left
            (one_more (read_resp-answer_bytes e mem rest room) r))

    module _ {S : Type 0} (snk : Sink S) (fuel : ℕ) (shutdown_write : S → S)
        (alloc : ℕ → Bool) where
      open snk use {content, Valid}

      -- From end to end: when the writer has closed a connection that was fresh, the client reads from it
      -- all the answers that were sent, in the order in which they were taken from the channel and to the
      -- last byte: a response with the message and the blob of its task, a failed one with its error,
      -- the framework's own with theirs. The conditions: each answer is within the limits of the head and
      -- the client's tasks are registered, have room and decode; the writer was in order and held
      -- nothing; and shutting a stream down leaves its bytes.
      pub served :
          (input : List ℕ) (out : Buffered S) {c : Conn S T R} {os : List End}
          → ((s : S)
              → Valid s
              → (content (shutdown_write s) ≡ content s) × Valid (shutdown_write s))
          → ValidBuffered snk fuel out
          → content out.inner ≡ []
          → out.front.pos ≡ 0
          → Reach d snk fuel le alloc shutdown_write (server_conn input out) c
          → c.writer ≡ closed
          → AllEnd c.sent os
          → ReadsAll (content c.out.inner) (onto os []) []
      served input out {c} {os} k v e z r w es =
          let h = Reach-IsWritten d snk fuel le shutdown_write k alloc input out v e z r in
          let (b, x, y) = h.arrived w in
          subst (λ s. ReadsAll s (onto os []) []) (append-nil b ∙ sym y)
            (ReadsAll-Wire x es [] [] [] nothing_more)
