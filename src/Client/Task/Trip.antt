-- ===== src/Client/Task/Trip.antt =====
-- A call of the stream layer from one struct to the other: the server's `ServerTaskVariant`
-- (stream/src/server/task.rs) is answered, and the client's `#[client_task]` struct ends
-- (stream/macros/src/client_task.rs).
use occams_rpc.Base.{ℕ, ◌≡◌, refl, sym, ap, subst, true, Option, none, some, List, [], ◌∷◌, arith}
use occams_rpc.Base.Int.{IsU64}
use occams_rpc.Base.Result.{Result, ok, err}
use occams_rpc.Error.{EncodedErr, rpc, num, static, buf, RpcError, user}
use occams_rpc.Error.Numbers.{RpcErrCodec, raw_of}
use occams_rpc.Error.Numbers.RoundTrip.{carried, opt_bind}
use occams_rpc.Proto.Layout.{ByteOrder}
use occams_rpc.Server.Task.{Variant, variant_decode}
use occams_rpc.Server.Task.Trip.{EncodesAs, Takes, result_end, Answered, variant_answers}
use occams_rpc.Tcp.Client.{Tasks}
use occams_rpc.Tcp.Client.ResponseTrip.{end_of}
use occams_rpc.Tcp.RequestTrip.{nonempty}
use occams_rpc.Tcp.Server.{RpcSvrReq}
use occams_rpc.Api.Call.{IsDistinct}
use occams_rpc.Client.Task.{
  TaskStruct, get_result, sent_back, done, blob_or, filled, decoded_to, decoded_end, end_task,
}

module _ {Q P E N : Type 0} (codec : RpcErrCodec E) (decode : List ℕ → Option P)
    (t : TaskStruct Q P E N) (waits : Tasks) (le : ByteOrder) where
  -- The handler's result, as the caller is to see it.
  abbrev pub user_result : Result {0, 0} E (Unit {0}) → Result {0, 0} (RpcError E) (Unit {0})
  user_result (ok u) = ok u
  user_result (err e) = err (user e)

  -- What the client's codec must do: decode the message, or the error, which is not taken for an
  -- internal one.
  abbrev pub Understands : Result {0, 0} E (Unit {0}) → List ℕ → Option P → Type 0
  Understands (ok u) [] resp = resp ≡ t.resp
  Understands (ok u) (x ∷ msg) resp = (p : P) × (resp ≡ some p) × (decode (x ∷ msg) ≡ some p)
  Understands (err e) bytes resp =
      (resp ≡ t.resp) × (carried codec e ≡ some e) × IsDistinct (codec.encode e)

  -- The blob that the ended task holds.
  abbrev pub blob_of : Result {0, 0} E (Unit {0}) → Option (List ℕ) → Option (List ℕ)
  blob_of (ok u) blob = blob_or (nonempty blob) t.resp_blob
  blob_of (err e) blob = t.resp_blob

  -- The task goes back with this result, this response and this blob.
  abbrev pub ComesBack :
      TaskStruct Q P E N → N → Result {0, 0} E (Unit {0}) → Option P → Option (List ℕ) → Type 0
  ComesBack t' noti res resp blob =
      (get_result t' ≡ user_result res)
      × (t'.resp ≡ resp)
      × (t'.resp_blob ≡ blob_of res blob)
      × (t'.seq ≡ t.seq)
      × (done t' ≡ some (noti, record t' { noti = none }))

  ended_user :
      (x : EncodedErr) (e : E)
      → opt_bind (raw_of x) codec.decode ≡ some e
      → IsDistinct x
      → end_task codec decode (end_of x) t ≡ record t { res = some (err (user e)) }
  unfolding opt_bind
  ended_user (num n) e h d = rw h refl
  ended_user (rpc i) e h d = absurd (ground (arith, h))
  ended_user (buf b) e h d = rw (d, h) refl
  ended_user (static b) e h d = rw (d, h) refl

  user_ComesBack :
      (e : E) (noti : N) (blob : Option (List ℕ))
      → t.noti ≡ some noti
      → ComesBack (record t { res = some (err (user e)) }) noti (err e) t.resp blob
  user_ComesBack e noti blob s =
      (refl, refl, refl, refl, ap (sent_back (record t { res = some (err (user e)) })) s)

  end_task-ComesBack :
      (res : Result {0, 0} E (Unit {0})) (bytes : List ℕ) (blob : Option (List ℕ)) (resp : Option P)
      (noti : N)
      → Understands res bytes resp
      → t.noti ≡ some noti
      → ComesBack
          (end_task codec decode (result_end codec waits le res bytes blob) t)
          noti
          res
          resp
          blob
  end_task-ComesBack (ok u) [] blob resp noti h s = (
    refl,
    sym h,
    refl,
    refl,
    ap (sent_back (record (filled (nonempty blob) t) { res = some (ok tt) })) s,
  )
  end_task-ComesBack (ok u) (x ∷ msg) blob resp noti (p, e, h) s =
      subst (λ t'. ComesBack t' noti (ok u) resp blob)
        (sym (
          ap (decoded_end codec decode (filled (nonempty blob) t))
            (ap (decoded_to (filled (nonempty blob) t)) h)))
        (
          refl,
          sym e,
          refl,
          refl,
          ap (sent_back (record (filled (nonempty blob) t) { resp = some p; res = some (ok tt) }))
              s,
        )
  end_task-ComesBack (err e) bytes blob resp noti (r, c, d) s =
      subst
        (λ r'. ComesBack (end_task codec decode (end_of (codec.encode e)) t) noti (err e) r' blob)
        (sym r)
        (subst (λ t'. ComesBack t' noti (err e) t.resp blob)
          (sym (ended_user (codec.encode e) e (unfold carried in c) d))
          (user_ComesBack e noti blob s))

  -- From end to end, for a codec that both sides share: what the handler of a `ServerTaskVariant` answers
  -- is what the caller gets. Its encoder does not panic, the client reads the answer to its last byte,
  -- and the struct that had this number then goes back through its channel: with the handler's result,
  -- and, if that is not an error, with the decoded message and the blob; what is empty leaves its
  -- field as it was. The conditions: those on the
  -- server's task and the transport's, and that the client's codec decodes the message, or the error,
  -- which is not the text of an internal one.
  pub variant-ComesBack :
      {M S : Type 0} (decode_req : List ℕ → Option M) (encode_into : M → List ℕ → List ℕ × Option ℕ)
      (q : RpcSvrReq) (server_noti : S) (res : Result {0, 0} E (Unit {0})) (task : Variant M E S)
      (msg : M) (bytes : List ℕ) (blob : Option (List ℕ)) (resp : Option P) (noti : N)
      → variant_decode decode_req q server_noti ≡ ok task
      → EncodesAs encode_into msg bytes
      → IsU64 q.seq
      → waits.registered q.seq ≡ true
      → Takes codec waits le res bytes blob
      → Understands res bytes resp
      → t.noti ≡ some noti
      → Answered codec waits le decode_req encode_into q server_noti res task msg bytes blob
        × ComesBack
            (end_task codec decode (result_end codec waits le res bytes blob) t)
            noti
            res
            resp
            blob
  variant-ComesBack decode_req encode_into q server_noti res task msg bytes blob resp noti d x u reg
        l h s =
      (
        variant_answers codec waits le decode_req encode_into q server_noti res task msg bytes blob
            d x u reg l,
        end_task-ComesBack res bytes blob resp noti h s,
      )
