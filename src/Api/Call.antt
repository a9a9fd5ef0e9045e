-- ===== src/Api/Call.antt =====
-- A call of the API layer from the server's answer to the caller's result: src/server/task.rs, the
-- response of stream/src/proto.rs, the reader of transport/tcp/src/client.rs, and src/client/mod.rs.
use occams_rpc.Base.{
  ℕ, ◌≤◌, ◌≡◌, refl, sym, ap, ◌∙◌, true, Option, none, some, List, [], ◌∷◌, ◌++◌, append-nil,
  length, arith,
}
use occams_rpc.Base.Int.{IsU64}
use occams_rpc.Base.Result.{ok, err}
use occams_rpc.Error.{RpcIntErr, EncodedErr, rpc, num, static, buf, user, int_err}
use occams_rpc.Error.Numbers.{RpcErrCodec, raw_of}
use occams_rpc.Error.Numbers.RoundTrip.{carried, opt_bind}
use occams_rpc.Proto.{encode_resp, rpc_resp_header_len, u32_max}
use occams_rpc.Proto.Layout.{ByteOrder}
use occams_rpc.Tcp.Client.{Tasks, TaskEnd, returned, read_resp, ended_ok, parse_rpc_err}
use occams_rpc.Proto.Response.{Fails, encode_resp_err}
use occams_rpc.Tcp.RequestTrip.{opt_bytes}
use occams_rpc.Tcp.Client.ResponseTrip.{
  end_of, IsSmall, read_resp-encode_resp_ok, read_resp-encode_resp_err,
}
use occams_rpc.Api.Server.{ServerResp, set_result, set_error, resp_task}
use occams_rpc.Api.Client.{ClientReq, Called, gave, end_req, process_res}

-- A user's text that is not the name of an internal error.
abbrev pub IsDistinct : EncodedErr → Type 0
IsDistinct (num n) = Unit {0}
IsDistinct (rpc e) = Unit
IsDistinct (buf s) = parse_rpc_err s ≡ none
IsDistinct (static s) = parse_rpc_err s ≡ none

module _ {E R : Type 0} (codec : RpcErrCodec E) (decode_msg : List ℕ → Option R) (default : R)
    (req : ClientReq) where
  processed_user :
      (x : EncodedErr) (e : E)
      → opt_bind (raw_of x) codec.decode ≡ some e
      → IsDistinct x
      → process_res codec decode_msg default (some (end_req (end_of x) req)) ≡ gave (err (user e))
  unfolding process_res opt_bind
  processed_user (num n) e h d = rw h refl
  processed_user (rpc i) e h d = absurd (ground (arith, h))
  processed_user (buf s) e h d = rw (d, h) refl
  processed_user (static s) e h d = rw (d, h) refl

  module _ (t : Tasks) (le : ByteOrder) (mem rest : List ℕ) (seq : ℕ) where
    -- What the server writes to the connection, and what follows.
    abbrev pub sent : ServerResp → List ℕ
    sent resp =
        let (b, n, blob) = encode_resp le mem (resp_task resp) in b ++ (opt_bytes blob ++ rest)

    -- The connection brings this end of the task, and the caller this result.
    abbrev pub Brings : ServerResp → Called E R → Type 0
    Brings resp result =
        (x : TaskEnd) × (read_resp t le (sent resp) ≡ returned (ok true) (some (seq, x)) rest)
        × (process_res codec decode_msg default (some (end_req x req)) ≡ result)

    sent_error :
        (x : EncodedErr)
        → IsSmall x
        → rpc_resp_header_len ≤ length mem
        → IsU64 seq
        → t.registered seq ≡ true
        → read_resp t le (sent (record { seq = seq; msg = none; res = err x }))
          ≡ returned (ok true) (some (seq, end_of x)) rest
    sent_error x small room u reg =
        let task = resp_task (record { seq = seq; msg = none; res = err x }) in
        let fails : Fails task seq [] x = λ b. ap (λ y. (y, seq, err x)) (sym (append-nil b)) in
        ap (λ o. read_resp t le ((encode_resp le mem task).0 ++ (opt_bytes o ++ rest)))
          (ap (λ p. p.2) (encode_resp_err le mem task seq [] x room fails))
        ∙ read_resp-encode_resp_err t le mem task seq x rest room u fails small reg

    -- The user's error that a method fails with is the user's error that the call fails with: encoded
    -- on the server, carried as a number or a text, and decoded on the client. The conditions: the
    -- codec decodes what it encodes, the encoded error has room in the head and, if it is a text, is not
    -- the name of an internal error, the buffer has room for the head, the number is of 64 bits, and the
    -- task is registered.
    pub call_user_error :
        (e : E)
        → carried codec e ≡ some e
        → IsSmall (codec.encode e)
        → IsDistinct (codec.encode e)
        → rpc_resp_header_len ≤ length mem
        → IsU64 seq
        → t.registered seq ≡ true
        → Brings (set_error codec seq (user e)) (gave (err (user e)))
    unfolding carried
    call_user_error e c small distinct room u reg = (
      end_of (codec.encode e),
      sent_error (codec.encode e) small room u reg,
      processed_user (codec.encode e) e c distinct,
    )

    -- An internal error that a method fails with is the internal error that the call fails with, on the
    -- same conditions on buffer, number and task.
    pub call_int_error :
        (e : RpcIntErr)
        → rpc_resp_header_len ≤ length mem
        → IsU64 seq
        → t.registered seq ≡ true
        → Brings (set_error codec seq (int_err e)) (gave (err (int_err e)))
    unfolding process_res
    call_int_error e room u reg = (end_of (rpc e), sent_error (rpc e) tt room u reg, refl)

    processed_ok :
        (msg : List ℕ) (r : R)
        → decode_msg msg ≡ some r
        → (msg ≡ [] → default ≡ r)
        → req.resp ≡ none
        → process_res codec decode_msg default (some (end_req (ended_ok msg none) req))
          ≡ gave (ok r)
    unfolding process_res
    processed_ok [] r d z n = rw n (ap (λ v. gave (ok v)) (z refl))
    processed_ok (x ∷ msg) r d z n = rw d refl

    -- The response that a method returns is the one that the call returns. The conditions: the codec
    -- encodes it as a message below 2^32 bytes and decodes that message as the response, one that is
    -- encoded as no bytes is the default, and those on buffer, number and task, which takes every
    -- message and has no response yet.
    pub call_result :
        (msg : List ℕ) (r : R)
        → decode_msg msg ≡ some r
        → (msg ≡ [] → default ≡ r)
        → req.resp ≡ none
        → length msg ≤ u32_max
        → rpc_resp_header_len ≤ length mem
        → IsU64 seq
        → t.registered seq ≡ true
        → t.reserves 0 ≡ true
        → t.decodes msg ≡ true
        → Brings (set_result seq (some msg)) (gave (ok r))
    call_result msg r d z n m room u reg res dec = (
      ended_ok msg none,
      read_resp-encode_resp_ok t le mem (resp_task (set_result seq (some msg))) seq msg none rest
          room u (λ b. refl) m (omega arith) reg res dec,
      processed_ok msg r d z n,
    )
