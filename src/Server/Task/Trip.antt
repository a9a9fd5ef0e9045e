-- ===== src/Server/Task/Trip.antt =====
-- From a task of stream/src/server/task.rs that is done to the client's reader
-- (transport/tcp/src/client.rs).
use occams_rpc.Base.{
  ℕ, ◌≤◌, ◌≡◌, refl, ap, ◌∙◌, true, Option, some, none, List, [], ◌++◌, length, append-nil, arith,
}
use occams_rpc.Base.Int.{IsU64}
use occams_rpc.Base.Result.{Result, ok, err}
use occams_rpc.Error.Numbers.{RpcErrCodec}
use occams_rpc.Proto.{
  ServerTaskEncode, encode_resp, opt_length, u32_max, i32_max, rpc_resp_header_len,
}
use occams_rpc.Proto.Layout.{ByteOrder}
use occams_rpc.Proto.Response.{Succeeds, Fails, encode_resp_err}
use occams_rpc.Server.Task.{
  Encoded, Variant, VariantFull, variant_decode, variant_of, variant_set_result, variant_encoded,
  full_encoded, variant_encode_resp, full_decode, full_of, full_set_result, full_encode_resp,
}
use occams_rpc.Tcp.Client.{Tasks, TaskEnd, ended_ok, returned, read_resp}
use occams_rpc.Tcp.Client.ResponseTrip.{
  IsSmall, end_of, read_resp-encode_resp_ok, read_resp-encode_resp_err,
}
use occams_rpc.Tcp.RequestTrip.{opt_bytes, nonempty}
use occams_rpc.Tcp.Server.{RpcSvrReq}

-- The codec encodes this value as these bytes, behind what the buffer holds.
abbrev pub EncodesAs : {M : Type 0} → (M → List ℕ → List ℕ × Option ℕ) → M → List ℕ → Type 0
EncodesAs encode_into msg bytes =
    (b : List ℕ) → encode_into msg b ≡ (b ++ bytes, some (length bytes))

-- The encoder of a task does not panic, and is what `RespHead::encode` asks of the task.
abbrev pub IsEncoder : (List ℕ → Encoded) → ServerTaskEncode → Type 0
IsEncoder f task = (b : List ℕ) → f b ≡ some (task.encode_resp b)

pub variant_of-seq :
    {M E N : Type 0} (q : RpcSvrReq) (noti : N) (o : Option M) (task : Variant M E N)
    → variant_of q noti o ≡ ok task
    → (task.seq ≡ q.seq) × (task.noti ≡ some noti)
variant_of-seq q noti none task e = absurd (ground arith)
variant_of-seq q noti (some m) task e = (ground arith, ground arith)

module _ {E : Type 0} (codec : RpcErrCodec E) (t : Tasks) (le : ByteOrder) where
  -- What the client can take: a message and a blob within the limits, of a task that has room and
  -- decodes, or an error with room in the head.
  abbrev pub Takes : Result {0, 0} E (Unit {0}) → List ℕ → Option (List ℕ) → Type 0
  Takes (ok u) bytes blob =
      (length bytes ≤ u32_max)
      × (opt_length blob ≤ i32_max)
      × (t.reserves (opt_length blob) ≡ true)
      × (t.decodes bytes ≡ true)
  Takes (err e) bytes blob = IsSmall (codec.encode e)

  abbrev pub result_end : Result {0, 0} E (Unit {0}) → List ℕ → Option (List ℕ) → TaskEnd
  result_end (ok u) bytes blob = ended_ok bytes (nonempty blob)
  result_end (err e) bytes blob = end_of (codec.encode e)

  -- The task that has this result, as the encoder sees it.
  abbrev IsDone :
      ServerTaskEncode → ℕ → Result {0, 0} E (Unit {0}) → List ℕ → Option (List ℕ) → Type 0
  IsDone task seq (ok u) bytes blob = Succeeds task seq bytes blob
  IsDone task seq (err e) bytes blob = Fails task seq [] (codec.encode e)

  -- Whatever the encoding buffer held and whatever comes behind the response, the client reads it to
  -- its last byte and ends the task with this number as the result says.
  abbrev pub EndsAt :
      ServerTaskEncode → ℕ → Result {0, 0} E (Unit {0}) → List ℕ → Option (List ℕ) → Type 0
  EndsAt task seq res bytes blob =
      (mem rest : List ℕ)
      → rpc_resp_header_len ≤ length mem
      → let (b, n, x) = encode_resp le mem task in
        read_resp t le (b ++ (opt_bytes x ++ rest))
        ≡ returned (ok true) (some (seq, result_end res bytes blob)) rest

  IsDone-EndsAt :
      (task : ServerTaskEncode) (seq : ℕ) (res : Result {0, 0} E (Unit {0})) (bytes : List ℕ)
      (blob : Option (List ℕ))
      → IsU64 seq
      → t.registered seq ≡ true
      → Takes res bytes blob
      → IsDone task seq res bytes blob
      → EndsAt task seq res bytes blob
  IsDone-EndsAt task seq (ok x) bytes blob u reg l s mem rest room =
      read_resp-encode_resp_ok t le mem task seq bytes blob rest room u s l.0 l.1 reg l.2 l.3
  IsDone-EndsAt task seq (err e) bytes blob u reg l f mem rest room =
      let (b, n, x) = encode_resp le mem task in
      let no_blob : x ≡ none =
        ap (λ y. y.2) (encode_resp_err le mem task seq [] (codec.encode e) room f) in
      ap (λ y. read_resp t le (b ++ (opt_bytes y ++ rest))) no_blob
      ∙ read_resp-encode_resp_err t le mem task seq (codec.encode e) rest room u f l reg

  module _ {M N : Type 0} (decode : List ℕ → Option M)
      (encode_into : M → List ℕ → List ℕ × Option ℕ) (q : RpcSvrReq) (noti : N)
      (res : Result {0, 0} E (Unit {0})) where
    -- The handler gives the task back with this message and blob, and its result is set.
    abbrev pub Answered : Variant M E N → M → List ℕ → Option (List ℕ) → Type 0
    Answered task msg bytes blob =
        (done : Variant M E N) × (enc : ServerTaskEncode) × (variant_set_result res
            (record task { msg = msg; blob = blob })
          ≡ some (noti, done))
        × (variant_set_result res done ≡ none)
        × IsEncoder (variant_encode_resp codec encode_into done) enc
        × EndsAt enc q.seq res bytes blob

    variant-IsDone :
        (task : Variant M E N) (bytes : List ℕ) (r : Result {0, 0} E (Unit {0}))
        → task.seq ≡ q.seq
        → EncodesAs encode_into task.msg bytes
        → IsDone
            (record { encode_resp = variant_encoded codec encode_into task r })
            q.seq
            r
            bytes
            task.blob
    variant-IsDone task bytes (ok u) e x = λ b. rw (x b, e) refl
    variant-IsDone task bytes (err y) e x = λ b. rw (e, append-nil b) refl

    -- A request that is decoded into a `ServerTaskVariant`, given any message and blob by its handler and
    -- a result once, is answered under the number of the request: its encoder does not panic, and the
    -- client ends its task with the bytes of the message and the blob, or with the error as the codec
    -- encodes it. A result is never set twice. The conditions: the codec encodes the message as these
    -- bytes, the number is of 64 bits, and the client's task is registered and takes the answer.
    pub variant_answers :
        (task : Variant M E N) (msg : M) (bytes : List ℕ) (blob : Option (List ℕ))
        → variant_decode decode q noti ≡ ok task
        → EncodesAs encode_into msg bytes
        → IsU64 q.seq
        → t.registered q.seq ≡ true
        → Takes res bytes blob
        → Answered task msg bytes blob
    variant_answers task msg bytes blob e x u reg l =
        let (s, n) = variant_of-seq q noti (decode q.msg) task e in
        let done : Variant M E N = record task {
          msg = msg;
          blob = blob;
          res = some res;
          noti = none;
        } in
        let enc : ServerTaskEncode = record {
          encode_resp = variant_encoded codec encode_into done res;
        } in
        (
          done,
          enc,
          rw n refl,
          refl,
          λ b. refl,
          IsDone-EndsAt enc q.seq res bytes blob u reg l (variant-IsDone done bytes res s x),
        )

  module _ {Q P N : Type 0} (decode : List ℕ → Option Q)
      (encode_into : P → List ℕ → List ℕ × Option ℕ) (q : RpcSvrReq) (noti : N)
      (res : Result {0, 0} E (Unit {0})) where
    -- As before, with a response apart from the request, which may be left out.
    abbrev pub FullAnswered : VariantFull Q P E N → Option P → List ℕ → Option (List ℕ) → Type 0
    FullAnswered task resp bytes blob =
        (done : VariantFull Q P E N) × (enc : ServerTaskEncode) × (full_set_result res
            (record task { resp = resp; resp_blob = blob })
          ≡ some (noti, done))
        × (full_set_result res done ≡ none)
        × IsEncoder (full_encode_resp codec encode_into done) enc
        × EndsAt enc q.seq res bytes blob

    abbrev pub RespEncodesAs : Option P → List ℕ → Type 0
    RespEncodesAs none bytes = bytes ≡ []
    RespEncodesAs (some resp) bytes = EncodesAs encode_into resp bytes

    full_of-seq :
        (o : Option Q) (task : VariantFull Q P E N)
        → full_of q noti o ≡ ok task
        → (task.seq ≡ q.seq) × (task.noti ≡ some noti)
    full_of-seq none task e = absurd (ground arith)
    full_of-seq (some m) task e = (ground arith, ground arith)

    full-IsDone :
        (task : VariantFull Q P E N) (resp : Option P) (bytes : List ℕ)
        (r : Result {0, 0} E (Unit {0}))
        → task.seq ≡ q.seq
        → task.resp ≡ resp
        → RespEncodesAs resp bytes
        → IsDone
            (record { encode_resp = full_encoded codec encode_into task r })
            q.seq
            r
            bytes
            task.resp_blob
    full-IsDone task none bytes (ok u) e p x = λ b. rw (p, e, x, append-nil b) refl
    full-IsDone task (some resp) bytes (ok u) e p x = λ b. rw (p, x b, e) refl
    full-IsDone task resp bytes (err y) e p x = λ b. rw (e, append-nil b) refl

    -- The same of a `ServerTaskVariantFull`, whose response is a message of its own; one that was left out
    -- is an empty message.
    pub full_answers :
        (task : VariantFull Q P E N) (resp : Option P) (bytes : List ℕ) (blob : Option (List ℕ))
        → full_decode decode q noti ≡ ok task
        → RespEncodesAs resp bytes
        → IsU64 q.seq
        → t.registered q.seq ≡ true
        → Takes res bytes blob
        → FullAnswered task resp bytes blob
    full_answers task resp bytes blob e x u reg l =
        let (s, n) = full_of-seq (decode q.msg) task e in
        let done : VariantFull Q P E N = record task {
          resp = resp;
          resp_blob = blob;
          res = some res;
          noti = none;
        } in
        let enc : ServerTaskEncode = record {
          encode_resp = full_encoded codec encode_into done res;
        } in
        (
          done,
          enc,
          rw n refl,
          refl,
          λ b. refl,
          IsDone-EndsAt enc q.seq res bytes blob u reg l (full-IsDone done resp bytes res s refl x),
        )
