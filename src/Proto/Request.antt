-- ===== src/Proto/Request.antt =====
-- What `ReqHead::encode` (stream/src/proto.rs) leaves in the buffer.
use occams_rpc.Base.{
  ℕ, ◌%◌, ◌^◌, ◌<◌, ◌≤◌, ◌≡◌, ◌⊎◌, refl, ap, some, List, [], ◌++◌, arith, length, length-take, take,
  drop-append_length, append_assoc, append-nil,
}
use occams_rpc.Base.Int.{as_u32}
use occams_rpc.Base.Result.{ok, err}
use occams_rpc.Proto.Layout.{ByteOrder}
use occams_rpc.Proto.{
  ReqHead, req_bytes, rpc_magic, rpc_version_1, rpc_req_header_len, RpcAction, str, num_action,
  ClientTask, encode_req, write_req_head, write_action, finish_req, or_high, opt_length, u32_max,
  i32_max,
}

-- The bytes of the action's text, and the head's action field.
abbrev pub action_text : RpcAction → List ℕ
action_text (num_action n) = []
action_text (str s) = s

abbrev pub action_flag : RpcAction → ℕ
action_flag (num_action n) = as_u32 n
action_flag (str s) = or_high (length s % 2 ^ 32)

-- The task writes this very message, behind what the buffer holds, and says its length.
abbrev pub Writes : ClientTask → List ℕ → Type 0
Writes task msg = (b : List ℕ) → task.encode_req b ≡ (b ++ msg, some (length msg))

abbrev pub head_of : ℕ → ClientTask → List ℕ → ReqHead
head_of client_id task msg = record {
  magic = rpc_magic;
  ver = rpc_version_1;
  format = 0;
  action = action_flag task.get_action;
  seq = task.seq;
  client_id = client_id;
  msg_len = length msg;
  blob_len = opt_length task.req_blob;
}

-- The lengths that the encoder accepts.
pub record InLimits (task : ClientTask) (msg : List ℕ) : Type 0 where
  pub msg_fits : length msg ≤ u32_max
  pub blob_fits : opt_length task.req_blob ≤ i32_max

write_action_lem :
    (a : RpcAction) (b : List ℕ) → write_action a b ≡ (action_flag a, b ++ action_text a)
write_action_lem (num_action n) b = rw append-nil
write_action_lem (str s) b = refl

module _ (le : ByteOrder) (mem : List ℕ) (client_id : ℕ) (task : ClientTask) (msg : List ℕ) where
  room : rpc_req_header_len ≤ length mem → length (take rpc_req_header_len mem) ≡ rpc_req_header_len
  room h = omega (arith, length-take rpc_req_header_len mem)

  -- `_write_head` puts the head in the room that was left, and keeps what is behind it.
  head-room :
      (b : List ℕ)
      → rpc_req_header_len ≤ length mem
      → write_req_head le
          (take rpc_req_header_len mem ++ b)
          client_id
          (action_flag task.get_action)
          task.seq
          (length msg)
          (opt_length task.req_blob)
        ≡ req_bytes le (head_of client_id task msg) ++ b
  unfolding write_req_head
  head-room b h =
      ap (λ r. req_bytes le (head_of client_id task msg) ++ r)
        (drop-append_length rpc_req_header_len (take rpc_req_header_len mem) b (room h))

  encode_req_steps :
      encode_req le mem client_id task
      ≡ finish_req le client_id
          (action_flag task.get_action)
          task
          (task.encode_req (take rpc_req_header_len mem ++ action_text task.get_action))
  unfolding encode_req
  encode_req_steps = rw write_action_lem

  -- A request within the limits is laid out as head, action text and message, and its blob is
  -- handed back.
  pub encode_req_lem :
      rpc_req_header_len ≤ length mem
      → Writes task msg
      → InLimits task msg
      → encode_req le mem client_id task ≡ (
        req_bytes le (head_of client_id task msg) ++ (action_text task.get_action ++ msg),
        ok task.req_blob,
      )
  encode_req_lem h w l =
      rw (encode_req_steps, w, append_assoc)
        (ground (arith, head-room (action_text task.get_action ++ msg) h))

  -- A message or a blob beyond its limit is refused.
  pub encode_req_refuses :
      Writes task msg
      → (u32_max < length msg) ⊎ (i32_max < opt_length task.req_blob)
      → (encode_req le mem client_id task).1 ≡ err tt
  encode_req_refuses w l = rw (encode_req_steps, w) (ground arith)
