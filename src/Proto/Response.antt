-- ===== src/Proto/Response.antt =====
-- What `RespHead::encode` (stream/src/proto.rs) leaves in the buffer.
use occams_rpc.Base.{
  ℕ, ◌%◌, ◌^◌, ◌<◌, ◌≤◌, ◌≡◌, ap, sym, ◌∙◌, Option, some, none, List, [], ◌++◌, arith, length,
  length-take, take, drop-append_length, append_assoc, append-nil,
}
use occams_rpc.Base.Result.{ok, err}
use occams_rpc.Error.{RpcIntErr, EncodedErr, rpc, num, static, buf, as_bytes, encode as encode_err}
use occams_rpc.Proto.Layout.{ByteOrder}
use occams_rpc.Proto.{
  RespHead, resp_bytes, rpc_magic, rpc_version_1, rpc_resp_header_len, ServerTaskEncode,
  encode_resp, encode_error, write_resp_head, encode_internal, opt_length, u32_max, i32_max,
  resp_flag_has_errno, resp_flag_has_err_string,
}

abbrev pub resp_head : ℕ → ℕ → ℕ → ℕ → RespHead
resp_head flag seq msg_len blob_len = record {
  magic = rpc_magic;
  ver = rpc_version_1;
  flag = flag;
  msg_len = msg_len;
  seq = seq;
  blob_len = blob_len;
}

-- The head of an error, and the text behind it.
abbrev pub error_text : EncodedErr → List ℕ
error_text (num n) = []
error_text (rpc e) = as_bytes e
error_text (buf s) = s
error_text (static s) = s

abbrev pub error_head : ℕ → EncodedErr → RespHead
error_head seq (num n) = resp_head resp_flag_has_errno seq n 0
error_head seq (rpc e) = resp_head resp_flag_has_err_string seq 0 (length (as_bytes e) % 2 ^ 32)
error_head seq (buf s) = resp_head resp_flag_has_err_string seq 0 (length s % 2 ^ 32)
error_head seq (static s) = resp_head resp_flag_has_err_string seq 0 (length s % 2 ^ 32)

-- The task succeeds with this message and blob, or fails with this error after it has written `junk`.
abbrev pub Succeeds : ServerTaskEncode → ℕ → List ℕ → Option (List ℕ) → Type 0
Succeeds task seq msg blob =
    (b : List ℕ) → task.encode_resp b ≡ (b ++ msg, seq, ok (length msg, blob))

abbrev pub Fails : ServerTaskEncode → ℕ → List ℕ → EncodedErr → Type 0
Fails task seq junk e = (b : List ℕ) → task.encode_resp b ≡ (b ++ junk, seq, err e)

module _ (le : ByteOrder) (mem : List ℕ) where
  abbrev Room : Type 0
  Room = rpc_resp_header_len ≤ length mem

  pub head-room :
      (flag seq msg_len blob_len : ℕ) (b : List ℕ)
      → Room
      → write_resp_head le (take rpc_resp_header_len mem ++ b) flag seq msg_len blob_len
        ≡ resp_bytes le (resp_head flag seq msg_len blob_len) ++ b
  unfolding write_resp_head
  head-room flag seq msg_len blob_len b h =
      ap (λ r. resp_bytes le (resp_head flag seq msg_len blob_len) ++ r)
        (drop-append_length rpc_resp_header_len (take rpc_resp_header_len mem) b
          (omega (arith, length-take rpc_resp_header_len mem)))

  text_behind :
      (seq : ℕ) (s junk : List ℕ)
      → Room
      → write_resp_head le
            (take rpc_resp_header_len mem ++ junk)
            resp_flag_has_err_string
            seq
            0
            (length s % 2 ^ 32)
          ++ s
        ≡ resp_bytes le (resp_head resp_flag_has_err_string seq 0 (length s % 2 ^ 32))
          ++ (junk ++ s)
  text_behind seq s junk h =
      ap (λ r. r ++ s) (head-room resp_flag_has_err_string seq 0 (length s % 2 ^ 32) junk h)
      ∙ append_assoc _ junk s

  -- An error goes behind what the buffer holds already.
  pub encode_error-room :
      (seq : ℕ) (e : EncodedErr) (junk : List ℕ)
      → Room
      → encode_error le (take rpc_resp_header_len mem ++ junk) seq e
        ≡ resp_bytes le (error_head seq e) ++ (junk ++ error_text e)
  unfolding encode_error
  encode_error-room seq (num n) junk h =
      head-room resp_flag_has_errno seq n 0 junk h
      ∙ ap (λ j. resp_bytes le (error_head seq (num n)) ++ j) (sym (append-nil junk))
  encode_error-room seq (rpc e) junk h = text_behind seq (as_bytes e) junk h
  encode_error-room seq (buf s) junk h = text_behind seq s junk h
  encode_error-room seq (static s) junk h = text_behind seq s junk h

  -- An answer of the framework itself: the head, and the text of its error.
  pub encode_internal-none :
      (seq : ℕ)
      → rpc_resp_header_len ≤ length mem
      → encode_internal le mem seq none ≡ resp_bytes le (resp_head 0 seq 0 0)
  unfolding encode_internal
  encode_internal-none seq room =
      ap (λ b. write_resp_head le b 0 seq 0 0) (sym (append-nil (take rpc_resp_header_len mem)))
      ∙ (head-room 0 seq 0 0 [] room ∙ append-nil (resp_bytes le (resp_head 0 seq 0 0)))

  pub encode_internal-some :
      (seq : ℕ) (e : RpcIntErr)
      → rpc_resp_header_len ≤ length mem
      → encode_internal le mem seq (some e) ≡ resp_bytes le (error_head seq (rpc e)) ++ as_bytes e
  unfolding encode_internal
  encode_internal-some seq e room =
      ap (λ b. encode_error le b seq (rpc e)) (sym (append-nil (take rpc_resp_header_len mem)))
      ∙ encode_error-room seq (rpc e) [] room

  module _ (task : ServerTaskEncode) (seq : ℕ) where
    -- A response within the limits is laid out as head and message, and its blob is handed back.
    pub encode_resp_ok :
        (msg : List ℕ) (blob : Option (List ℕ))
        → Room
        → Succeeds task seq msg blob
        → length msg ≤ u32_max
        → opt_length blob ≤ i32_max
        → encode_resp le mem task
          ≡ (resp_bytes le (resp_head 0 seq (length msg) (opt_length blob)) ++ msg, seq, blob)
    unfolding encode_resp
    encode_resp_ok msg none r s m b = rw s (ground (arith, head-room 0 seq (length msg) 0 msg r))
    encode_resp_ok msg (some x) r s m b =
        rw s (ground (arith, head-room 0 seq (length msg) (length x) msg r))

    -- A failed response is the head of its error, then what the task had written before it failed,
    -- then the text of the error.
    pub encode_resp_err :
        (junk : List ℕ) (e : EncodedErr)
        → Room
        → Fails task seq junk e
        → encode_resp le mem task
          ≡ (resp_bytes le (error_head seq e) ++ (junk ++ error_text e), seq, none)
    unfolding encode_resp
    encode_resp_err junk e r f = rw (f, encode_error-room seq e junk r)

    -- The encoder's own refusal of a blob that is too long leaves the message between the head and
    -- the text of the error.
    pub encode_resp_too_long :
        (msg blob : List ℕ)
        → Room
        → Succeeds task seq msg (some blob)
        → length msg ≤ u32_max
        → i32_max < length blob
        → encode_resp le mem task ≡ (
          resp_bytes le (error_head seq (rpc encode_err)) ++ (msg ++ as_bytes encode_err),
          seq,
          none,
        )
    unfolding encode_resp
    encode_resp_too_long msg blob r s m b =
        rw s (ground (arith, encode_error-room seq (rpc encode_err) msg r))
