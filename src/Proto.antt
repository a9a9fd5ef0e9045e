-- ===== src/Proto.antt =====
-- stream/src/proto.rs: the fixed heads of a request and a response, and how both are encoded and
-- read. A buffer is the memory of its allocation; `set_len` only says how much of it counts.
pub mod Layout
pub mod Heads
pub mod Request
pub mod Response
use occams_rpc.Base.{
  slice, ℕ, ◌+◌, ◌-◌, ◌/◌, ◌%◌, ◌^◌, ◌≡◌, Bool, true, false, Option, none, some, List, [], ◌∷◌,
  ◌++◌, ltb, ◌==◌, if◌then◌else◌, length, take, drop,
}
use occams_rpc.Base.Int.{ℤ, as_u32, as_i32}
use occams_rpc.Base.Result.{Result, ok, err}
use occams_rpc.Error.{
  RpcIntErr, EncodedErr, rpc, num, static, buf, as_bytes, io, version, encode as encode_err,
}
use Layout.{ByteOrder, pack}

abbrev pub ping_action : ℕ
ping_action = 0

abbrev pub rpc_magic : ℕ
rpc_magic = 19749

abbrev pub u32_max : ℕ
u32_max = 2 ^ 32 - 1

abbrev pub i32_max : ℕ
i32_max = 2 ^ 31 - 1

abbrev pub resp_flag_has_errno : ℕ
resp_flag_has_errno = 1

abbrev pub resp_flag_has_err_string : ℕ
resp_flag_has_err_string = 2

abbrev pub rpc_version_1 : ℕ
rpc_version_1 = 1

-- `w & U32_HIGH_MASK != 0`
abbrev pub high_bit : ℕ → Bool
high_bit w = w / 2 ^ 31 % 2 == 1

-- `w | U32_HIGH_MASK`
abbrev pub or_high : ℕ → ℕ
or_high w = if high_bit w then w else w + 2 ^ 31

-- `w ^ U32_HIGH_MASK`
abbrev pub xor_high : ℕ → ℕ
xor_high w = if high_bit w then w - 2 ^ 31 else w + 2 ^ 31

-- `RpcAction` and `RpcActionOwned`: a text is its bytes.
pub data RpcAction : Type 0 where
  str : List ℕ → RpcAction
  num_action : ℤ → RpcAction

pub record ReqHead : Type 0 where
  pub magic : ℕ
  pub ver : ℕ
  pub format : ℕ
  pub action : ℕ
  pub seq : ℕ
  pub client_id : ℕ
  pub msg_len : ℕ
  pub blob_len : ℕ

-- `size_of::<ReqHead>()`
abbrev pub rpc_req_header_len : ℕ
rpc_req_header_len = 32

pub record RespHead : Type 0 where
  pub magic : ℕ
  pub ver : ℕ
  pub flag : ℕ
  pub msg_len : ℕ
  pub seq : ℕ
  -- the bits of an i32
  pub blob_len : ℕ

abbrev pub rpc_resp_header_len : ℕ
rpc_resp_header_len = 20

-- What the encoder asks of a client's task. `encode_req` appends to the buffer and returns the size
-- written; on an error it may have written too.
pub record ClientTask : Type 0 where
  pub get_action : RpcAction
  pub seq : ℕ
  pub encode_req : List ℕ → List ℕ × Option ℕ
  pub req_blob : Option (List ℕ)

-- What the encoder asks of a server's task: the number of the request, and the message's length
-- and the blob, or an error.
pub record ServerTaskEncode : Type 0 where
  pub encode_resp : List ℕ → List ℕ × ℕ × Result EncodedErr (ℕ × Option (List ℕ))

-- The length of a blob, 0 for none.
abbrev pub opt_length : Option (List ℕ) → ℕ
opt_length none = 0
opt_length (some b) = length b

-- `ReqHead::get_action`: the number, or as an error the length of the text.
unfoldable pub get_action : ReqHead → Result ℤ ℤ
get_action h = if high_bit h.action then err (as_i32 (xor_high h.action)) else ok (as_i32 h.action)

-- The packed layouts: each field's width and value, in the order of the declaration.
abbrev pub req_fields : ReqHead → List (ℕ × ℕ)
req_fields h =
    (2, h.magic)
    ∷ (1, h.ver)
    ∷ (1, h.format)
    ∷ (4, h.action)
    ∷ (8, h.seq)
    ∷ (8, h.client_id)
    ∷ (4, h.msg_len)
    ∷ (4, h.blob_len)
    ∷ []

abbrev pub resp_fields : RespHead → List (ℕ × ℕ)
resp_fields h =
    (2, h.magic) ∷ (1, h.ver) ∷ (1, h.flag) ∷ (4, h.msg_len) ∷ (8, h.seq) ∷ (4, h.blob_len) ∷ []

-- The tests of both `decode_head`s: the magic number, then the version.
abbrev pub checked_req : ReqHead → Result RpcIntErr ReqHead
checked_req h =
    if h.magic == rpc_magic then (if h.ver == rpc_version_1 then ok h else err version) else err io

abbrev pub checked_resp : RespHead → Result RpcIntErr RespHead
checked_resp h =
    if h.magic == rpc_magic then (if h.ver == rpc_version_1 then ok h else err version) else err io

-- The action flag, and the buffer with the action's text.
abbrev pub write_action : RpcAction → List ℕ → ℕ × List ℕ
write_action (num_action n) b = (as_u32 n, b)
write_action (str s) b = (or_high (length s % 2 ^ 32), b ++ s)

module _ (le : ByteOrder) where
  open le use {get}

  pub req_bytes : ReqHead → List ℕ
  req_bytes h = pack le (req_fields h)

  unfoldable pub req_of_bytes : List ℕ → ReqHead
  req_of_bytes b = record {
    magic = get (slice 0 2 b);
    ver = get (slice 2 1 b);
    format = get (slice 3 1 b);
    action = get (slice 4 4 b);
    seq = get (slice 8 8 b);
    client_id = get (slice 16 8 b);
    msg_len = get (slice 24 4 b);
    blob_len = get (slice 28 4 b);
  }

  unfoldable pub resp_bytes : RespHead → List ℕ
  resp_bytes h = pack le (resp_fields h)

  pub resp_of_bytes : List ℕ → RespHead
  resp_of_bytes b = record {
    magic = get (slice 0 2 b);
    ver = get (slice 2 1 b);
    flag = get (slice 3 1 b);
    msg_len = get (slice 4 4 b);
    seq = get (slice 8 8 b);
    blob_len = get (slice 16 4 b);
  }

  -- `ReqHead::_write_head`: it overwrites the first bytes of the buffer.
  pub write_req_head : List ℕ → ℕ → ℕ → ℕ → ℕ → ℕ → List ℕ
  unfolding req_bytes
  write_req_head buffer client_id action seq msg_len blob_len =
      req_bytes (record {
        magic = rpc_magic;
        ver = rpc_version_1;
        format = 0;
        action = action;
        seq = seq;
        client_id = client_id;
        msg_len = msg_len;
        blob_len = blob_len;
      })
      ++ drop rpc_req_header_len buffer

  -- `ReqHead::encode_ping`
  pub encode_ping : List ℕ → ℕ → ℕ → List ℕ
  unfolding write_req_head
  encode_ping mem client_id seq =
      write_req_head (take rpc_req_header_len mem) client_id ping_action seq 0 0

  -- The part of `ReqHead::encode` after the message is encoded.
  abbrev pub finish_req :
      ℕ → ℕ → ClientTask → List ℕ × Option ℕ → List ℕ × Result (Unit {0}) (Option (List ℕ))
  finish_req client_id flag task (b, none) = (b, err tt)
  finish_req client_id flag task (b, some msg_len) =
      if ltb u32_max msg_len
      then (b, err tt)
      else if ltb i32_max (opt_length task.req_blob)
      then (b, err tt)
      else (
        write_req_head b client_id flag task.seq msg_len (opt_length task.req_blob),
        ok task.req_blob,
      )

  -- `ReqHead::encode`: the buffer that is left, and the blob or an error.
  pub encode_req : List ℕ → ℕ → ClientTask → List ℕ × Result (Unit {0}) (Option (List ℕ))
  unfolding write_req_head
  encode_req mem client_id task =
      let (flag, b) = write_action task.get_action (take rpc_req_header_len mem) in
      finish_req client_id flag task (task.encode_req b)

  -- `ReqHead::decode_head`; `none` is the panic of a buffer of another size.
  unfoldable pub decode_req_head : List ℕ → Option (Result RpcIntErr ReqHead)
  unfolding req_of_bytes
  decode_req_head b =
      if length b == rpc_req_header_len then some (checked_req (req_of_bytes b)) else none

  -- `RespHead::_write_head`
  unfoldable pub write_resp_head : List ℕ → ℕ → ℕ → ℕ → ℕ → List ℕ
  unfolding resp_bytes
  write_resp_head buffer flag seq msg_len blob_len =
      resp_bytes (record {
        magic = rpc_magic;
        ver = rpc_version_1;
        flag = flag;
        msg_len = msg_len;
        seq = seq;
        blob_len = blob_len;
      })
      ++ drop rpc_resp_header_len buffer

  -- `write_err!`: the length is cast to an i32, and the text goes behind what the buffer holds.
  abbrev pub write_err : List ℕ → ℕ → List ℕ → List ℕ
  write_err buffer seq s =
      write_resp_head buffer resp_flag_has_err_string seq 0 (length s % 2 ^ 32) ++ s

  -- `RespHead::_encode_error`
  unfoldable pub encode_error : List ℕ → ℕ → EncodedErr → List ℕ
  unfolding write_resp_head
  encode_error buffer seq (num n) = write_resp_head buffer resp_flag_has_errno seq n 0
  encode_error buffer seq (rpc e) = write_err buffer seq (as_bytes e)
  encode_error buffer seq (buf s) = write_err buffer seq s
  encode_error buffer seq (static s) = write_err buffer seq s

  -- The match of `RespHead::encode` on the task's result.
  abbrev pub finish_resp :
      List ℕ × ℕ × Result EncodedErr (ℕ × Option (List ℕ)) → List ℕ × ℕ × Option (List ℕ)
  finish_resp (b, seq, ok (msg_len, none)) = (
    if ltb u32_max msg_len
        then encode_error b seq (rpc encode_err)
        else write_resp_head b 0 seq msg_len 0,
    seq,
    none,
  )
  finish_resp (b, seq, ok (msg_len, some blob)) =
      if ltb u32_max msg_len
      then (encode_error b seq (rpc encode_err), seq, none)
      else if ltb i32_max (length blob)
      then (encode_error b seq (rpc encode_err), seq, none)
      else (write_resp_head b 0 seq msg_len (length blob), seq, some blob)
  finish_resp (b, seq, err e) = (encode_error b seq e, seq, none)

  -- `RespHead::encode`
  unfoldable pub encode_resp : List ℕ → ServerTaskEncode → List ℕ × ℕ × Option (List ℕ)
  unfolding encode_error write_resp_head
  encode_resp mem task = finish_resp (task.encode_resp (take rpc_resp_header_len mem))

  -- `RespHead::encode_internal`: an error, or the answer to a ping.
  unfoldable pub encode_internal : List ℕ → ℕ → Option RpcIntErr → List ℕ
  unfolding encode_error write_resp_head
  encode_internal mem seq (some e) = encode_error (take rpc_resp_header_len mem) seq (rpc e)
  encode_internal mem seq none = write_resp_head (take rpc_resp_header_len mem) 0 seq 0 0

  -- `RespHead::decode_head`
  pub decode_resp_head : List ℕ → Option (Result RpcIntErr RespHead)
  unfolding resp_of_bytes
  decode_resp_head b =
      if length b == rpc_resp_header_len then some (checked_resp (resp_of_bytes b)) else none
