-- ===== src/Tcp/Client/ResponseTrip.antt =====
-- A response from the server's encoder (stream/src/proto.rs) through the connection to the client's
-- reader (transport/tcp/src/client.rs).
use occams_rpc.Base.{
  ℕ, ◌+◌, ◌%◌, ◌^◌, ◌<◌, ◌≤◌, ◌≡◌, refl, ap, ◌∙◌, true, Option, some, none, List, [], ◌∷◌, ◌++◌,
  arith, length, length-append, append_assoc, take, drop, length-drop,
}
use occams_rpc.Base.Int.{IsU64, IsU32, as_i32}
use occams_rpc.Base.Result.{ok}
use occams_rpc.Error.{
  RpcIntErr, unreachable, EncodedErr, rpc, num, static, buf, as_bytes, encode as encode_err,
  from_str,
}
use occams_rpc.Error.Text.{from_utf8}
use occams_rpc.Proto.Layout.{ByteOrder, Fits}
use occams_rpc.Proto.{
  resp_fields, resp_bytes, rpc_resp_header_len, ServerTaskEncode, encode_resp, opt_length, u32_max,
  i32_max,
}
use occams_rpc.Proto.Heads.{length-resp_bytes, decode_resp_head-resp_bytes}
use occams_rpc.Proto.Response.{
  resp_head, error_head, error_text, Succeeds, Fails, encode_resp_ok, encode_resp_err,
  encode_resp_too_long,
}
use occams_rpc.Tcp.{read_exact_enough, read_exact-append}
use occams_rpc.Tcp.Client.{
  Tasks, TaskEnd, ended_ok, custom_error, rpc_error, returned, parse_rpc_err, text_end, text_end_as,
  text_end_as, read_resp, recv_resp_body, recv_error, recv_blob, recv_msg,
}
use occams_rpc.Tcp.RequestTrip.{opt_bytes, nonempty}

-- The text of an internal error is told from a user's.
parse_rpc_err-as_bytes : (e : RpcIntErr) → parse_rpc_err (as_bytes e) ≡ some e
unfolding from_utf8 from_str
parse_rpc_err-as_bytes unreachable = refl
parse_rpc_err-as_bytes _ = refl

length-as_bytes : (e : RpcIntErr) → length (as_bytes e) ≤ i32_max
length-as_bytes unreachable = omega arith
length-as_bytes _ = omega arith

-- How a failed response ends the client's task.
abbrev pub end_of : EncodedErr → TaskEnd
end_of (num n) = custom_error (num n)
end_of (rpc e) = rpc_error e
end_of (buf s) = text_end s
end_of (static s) = text_end s

-- An error that the head has room for.
abbrev pub IsSmall : EncodedErr → Type 0
IsSmall (num n) = IsU32 n
IsSmall (rpc e) = Unit {0}
IsSmall (buf s) = length s ≤ i32_max
IsSmall (static s) = length s ≤ i32_max

module _ (t : Tasks) (le : ByteOrder) where
  -- A head of the protocol leads to the body.
  pub read_resp-head :
      (flag seq msg_len blob_len : ℕ) (s : List ℕ)
      → Fits (resp_fields (resp_head flag seq msg_len blob_len))
      → read_resp t le (resp_bytes le (resp_head flag seq msg_len blob_len) ++ s)
        ≡ recv_resp_body t (resp_head flag seq msg_len blob_len) s
  unfolding read_resp
  read_resp-head flag seq msg_len blob_len s f = rw (
    read_exact-append rpc_resp_header_len (resp_bytes le (resp_head flag seq msg_len blob_len)) s
        (length-resp_bytes le (resp_head flag seq msg_len blob_len)),
    decode_resp_head-resp_bytes le (resp_head flag seq msg_len blob_len) f,
  )

  recv_blob-append :
      (seq : ℕ) (msg : List ℕ) (blob : Option (List ℕ)) (rest : List ℕ)
      → t.reserves (opt_length blob) ≡ true
      → t.decodes msg ≡ true
      → opt_length blob ≤ i32_max
      → recv_blob t
          (resp_head 0 seq (length msg) (opt_length blob))
          (as_i32 (opt_length blob))
          msg
          (opt_bytes blob ++ rest)
        ≡ returned (ok true) (some (seq, ended_ok msg (nonempty blob))) rest
  unfolding recv_blob
  recv_blob-append seq msg none rest r d b = ground arith
  recv_blob-append seq msg (some []) rest r d b = ground arith
  recv_blob-append seq msg (some (x ∷ y)) rest r d b =
      ground (arith, read_exact-append (length (x ∷ y)) (x ∷ y) rest refl)

  recv_msg-append :
      (seq : ℕ) (msg : List ℕ) (blob : Option (List ℕ)) (rest : List ℕ)
      → recv_msg t (resp_head 0 seq (length msg) (opt_length blob)) (msg ++ rest)
        ≡ recv_blob t
            (resp_head 0 seq (length msg) (opt_length blob))
            (as_i32 (opt_length blob))
            msg
            rest
  unfolding recv_msg
  recv_msg-append seq [] blob rest = refl
  recv_msg-append seq (x ∷ msg) blob rest =
      ground (arith, read_exact-append (length (x ∷ msg)) (x ∷ msg) rest refl)

  recv_error-text :
      (seq n : ℕ) (s rest : List ℕ)
      → length s ≡ n
      → n ≤ i32_max
      → recv_error (resp_head 2 seq 0 (n % 2 ^ 32)) (s ++ rest)
        ≡ returned (ok true) (some (seq, text_end s)) rest
  unfolding recv_error
  recv_error-text seq n s rest e h = ground (arith, read_exact-append n s rest e)

  recv_error-take :
      (seq : ℕ) (s : List ℕ)
      → 10 ≤ length s
      → recv_error (resp_head 2 seq 0 10) s
        ≡ returned (ok true) (some (seq, text_end (take 10 s))) (drop 10 s)
  unfolding recv_error
  recv_error-take seq s h = rw (read_exact_enough 10 s h)

  -- A response within the limits, encoded by the server and written to the connection, ends the
  -- client's task well, with the same number, the same message and the same blob, where an empty
  -- blob becomes none; the reader stops exactly at the response's end. The conditions: the buffer has
  -- room for the head, the number is of 64 bits, the task is registered, has room for the blob and
  -- decodes the message.
  pub read_resp-encode_resp_ok :
      (mem : List ℕ) (task : ServerTaskEncode) (seq : ℕ) (msg : List ℕ) (blob : Option (List ℕ))
      (rest : List ℕ)
      → rpc_resp_header_len ≤ length mem
      → IsU64 seq
      → Succeeds task seq msg blob
      → length msg ≤ u32_max
      → opt_length blob ≤ i32_max
      → t.registered seq ≡ true
      → t.reserves (opt_length blob) ≡ true
      → t.decodes msg ≡ true
      → let (b, n, x) = encode_resp le mem task in
        read_resp t le (b ++ (opt_bytes x ++ rest))
        ≡ returned (ok true) (some (seq, ended_ok msg (nonempty blob))) rest
  unfolding recv_resp_body
  read_resp-encode_resp_ok mem task seq msg blob rest room u s m b reg res dec =
      rw
        (
          encode_resp_ok le mem task seq msg blob room s m b,
          append_assoc,
          read_resp-head 0 seq (length msg) (opt_length blob) _ (omega arith),
          reg,
          recv_msg-append seq msg blob _,
        )
        (recv_blob-append seq msg blob rest res dec b)

  pub recv_resp_body-err :
      (seq : ℕ) (e : EncodedErr) (rest : List ℕ)
      → IsSmall e
      → t.registered seq ≡ true
      → recv_resp_body t (error_head seq e) (error_text e ++ rest)
        ≡ returned (ok true) (some (seq, end_of e)) rest
  unfolding recv_resp_body
  recv_resp_body-err seq (num n) rest h reg = rw reg (unfold recv_error in refl)
  recv_resp_body-err seq (rpc e) rest h reg = rw reg (
      recv_error-text seq (length (as_bytes e)) (as_bytes e) rest refl (length-as_bytes e)
      ∙ ap (λ r. returned (ok true) (some (seq, text_end_as (as_bytes e) r)) rest)
          (parse_rpc_err-as_bytes e))
  recv_resp_body-err seq (buf s) rest h reg = rw reg (recv_error-text seq (length s) s rest refl h)
  recv_resp_body-err seq (static s) rest h reg =
      rw reg (recv_error-text seq (length s) s rest refl h)

  error_head-Fits :
      (seq : ℕ) (e : EncodedErr) → IsU64 seq → IsSmall e → Fits (resp_fields (error_head seq e))
  error_head-Fits seq (num n) u h = omega arith
  error_head-Fits seq (rpc e) u h = omega (arith, length-as_bytes e)
  error_head-Fits seq (buf s) u h = omega arith
  error_head-Fits seq (static s) u h = omega arith

  pub read_resp-error_head :
      (seq : ℕ) (e : EncodedErr) (s : List ℕ)
      → IsU64 seq
      → IsSmall e
      → read_resp t le (resp_bytes le (error_head seq e) ++ s)
        ≡ recv_resp_body t (error_head seq e) s
  read_resp-error_head seq (num n) s u h =
      read_resp-head 1 seq n 0 s (error_head-Fits seq (num n) u h)
  read_resp-error_head seq (rpc e) s u h =
      read_resp-head 2 seq 0 (length (as_bytes e) % 2 ^ 32) s (error_head-Fits seq (rpc e) u h)
  read_resp-error_head seq (buf x) s u h =
      read_resp-head 2 seq 0 (length x % 2 ^ 32) s (error_head-Fits seq (buf x) u h)
  read_resp-error_head seq (static x) s u h =
      read_resp-head 2 seq 0 (length x % 2 ^ 32) s (error_head-Fits seq (static x) u h)

  -- A failed response, of a task that has written nothing before it failed, ends the client's task
  -- with the error: a number as that number, an internal error as that error, and a text as the
  -- internal error of that text if there is one and as the text otherwise. The reader stops exactly
  -- at the response's end. The conditions: the buffer has room for the head, the numbers are of their
  -- widths, a text is below 2^31 bytes, and the task is registered.
  pub read_resp-encode_resp_err :
      (mem : List ℕ) (task : ServerTaskEncode) (seq : ℕ) (e : EncodedErr) (rest : List ℕ)
      → rpc_resp_header_len ≤ length mem
      → IsU64 seq
      → Fails task seq [] e
      → IsSmall e
      → t.registered seq ≡ true
      → read_resp t le ((encode_resp le mem task).0 ++ rest)
        ≡ returned (ok true) (some (seq, end_of e)) rest
  read_resp-encode_resp_err mem task seq e rest room u f h reg =
      rw
        (
          encode_resp_err le mem task seq [] e room f,
          append_assoc,
          read_resp-error_head seq e (error_text e ++ rest) u h,
        )
        (recv_resp_body-err seq e rest h reg)

  -- A blob beyond the limit, behind a message that is not empty, breaks the framing: the client takes
  -- the first bytes of the message and of the error's text for the text, and leaves as many bytes
  -- unread as the message has.
  pub read_resp-too_long :
      (mem : List ℕ) (task : ServerTaskEncode) (seq : ℕ) (msg blob rest : List ℕ)
      → rpc_resp_header_len ≤ length mem
      → IsU64 seq
      → Succeeds task seq msg (some blob)
      → length msg ≤ u32_max
      → i32_max < length blob
      → t.registered seq ≡ true
      → let sent = msg ++ (as_bytes encode_err ++ rest) in
        (read_resp t le ((encode_resp le mem task).0 ++ rest)
          ≡ returned (ok true) (some (seq, text_end (take 10 sent))) (drop 10 sent))
        × (length (drop 10 sent) ≡ length msg + length rest)
  unfolding recv_resp_body
  read_resp-too_long mem task seq msg blob rest room u s m b reg =
      rw
        (
          encode_resp_too_long le mem task seq msg blob room s m b,
          append_assoc,
          append_assoc,
          read_resp-error_head seq (rpc encode_err) _ u tt,
          reg,
        )
        (
          recv_error-take seq (msg ++ (as_bytes encode_err ++ rest)) long,
          omega (arith, length-drop 10 (msg ++ (as_bytes encode_err ++ rest)), all),
        )
    where
      all : length (msg ++ (as_bytes encode_err ++ rest)) ≡ length msg + (10 + length rest)
      all = omega (arith, length-append msg (as_bytes encode_err ++ rest))

      long : 10 ≤ length (msg ++ (as_bytes encode_err ++ rest))
      long = omega (arith, all)
