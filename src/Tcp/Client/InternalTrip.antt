-- ===== src/Tcp/Client/InternalTrip.antt =====
-- An answer of the server's framework itself (`RespHead::encode_internal` of stream/src/proto.rs) at
-- the client's reader (transport/tcp/src/client.rs).
use occams_rpc.Base.{
  ℕ, ◌≤◌, ◌≡◌, refl, Bool, true, false, Option, some, none, List, [], ◌++◌, arith, length,
  append_assoc,
}
use occams_rpc.Base.Int.{IsU64}
use occams_rpc.Base.Result.{ok}
use occams_rpc.Error.{RpcIntErr, rpc, as_bytes}
use occams_rpc.Proto.Layout.{ByteOrder}
use occams_rpc.Proto.{rpc_resp_header_len, encode_internal}
use occams_rpc.Proto.Response.{resp_head, encode_internal-none, encode_internal-some}
use occams_rpc.Tcp.Client.{
  Tasks, TaskEnd, ended_ok, rpc_error, returned, read_resp, recv_resp_body, recv_msg, recv_blob,
}
use occams_rpc.Tcp.Client.ResponseTrip.{read_resp-head, read_resp-error_head, recv_resp_body-err}

-- What an answer of the framework does to the task with its number: the error ends it, the answer to a
-- ping ends it well if there is one.
abbrev pub internal_end : Bool → ℕ → Option RpcIntErr → Option (ℕ × TaskEnd)
internal_end registered seq (some e) = some (seq, rpc_error e)
internal_end true seq none = some (seq, ended_ok [] none)
internal_end false seq none = none

-- An error is answered to a request, whose task is registered.
abbrev pub IsExpected : Bool → Option RpcIntErr → Type 0
IsExpected registered (some e) = registered ≡ true
IsExpected registered none = Unit {0}

module _ (le : ByteOrder) (mem : List ℕ) where
  module _ (t : Tasks) where
    recv_resp_body-none :
        (b : Bool) (seq : ℕ) (rest : List ℕ)
        → t.registered seq ≡ b
        → recv_resp_body t (resp_head 0 seq 0 0) rest
          ≡ returned (ok true) (internal_end b seq none) rest
    unfolding recv_resp_body
    recv_resp_body-none true seq rest e = rw e (unfold recv_msg in unfold recv_blob in refl)
    recv_resp_body-none false seq rest e = rw e refl

    -- What the framework itself answers on a connection is read by the client to its last byte: an
    -- error ends the registered task with that number and that error, and the answer to a ping ends no
    -- task, unless one is registered under its number. The conditions: the encoding buffer has room for
    -- the head, and the number is of 64 bits.
    pub read_resp-encode_internal :
        (seq : ℕ) (e : Option RpcIntErr) (rest : List ℕ)
        → rpc_resp_header_len ≤ length mem
        → IsU64 seq
        → IsExpected (t.registered seq) e
        → read_resp t le (encode_internal le mem seq e ++ rest)
          ≡ returned (ok true) (internal_end (t.registered seq) seq e) rest
    read_resp-encode_internal seq none rest room u x =
        rw (encode_internal-none le mem seq room, read_resp-head t le 0 seq 0 0 rest (omega arith))
          (recv_resp_body-none (t.registered seq) seq rest refl)
    read_resp-encode_internal seq (some e) rest room u x =
        rw
          (
            encode_internal-some le mem seq e room,
            append_assoc,
            read_resp-error_head t le seq (rpc e) (as_bytes e ++ rest) u tt,
          )
          (recv_resp_body-err t le seq (rpc e) rest tt x)
