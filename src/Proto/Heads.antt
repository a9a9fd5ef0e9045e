-- ===== src/Proto/Heads.antt =====
-- The fixed heads of stream/src/proto.rs, written and read back.
use occams_rpc.Base.{take, drop, ap, ◌≡◌, some, length, if◌then◌else◌, ◌==◌}
use occams_rpc.Base.Result.{ok, err}
use occams_rpc.Error.{io, version}
use occams_rpc.Proto.Layout.{ByteOrder, Fits, length-pack, get-pack}
use occams_rpc.Proto.{
  checked_req, checked_resp, ReqHead, RespHead, req_fields, resp_fields, req_bytes, resp_bytes,
  req_of_bytes, resp_of_bytes, rpc_magic, rpc_version_1, decode_req_head, decode_resp_head,
  rpc_req_header_len, rpc_resp_header_len,
}

module _ (le : ByteOrder) where
  -- `RPC_REQ_HEADER_LEN` is the size of `ReqHead`.
  pub length-req_bytes : (h : ReqHead) → length (req_bytes le h) ≡ rpc_req_header_len
  unfolding req_bytes
  length-req_bytes h = length-pack le (req_fields h)

  pub length-resp_bytes : (h : RespHead) → length (resp_bytes le h) ≡ rpc_resp_header_len
  unfolding resp_bytes
  length-resp_bytes h = length-pack le (resp_fields h)

  req_of_bytes-req_bytes :
      (h : ReqHead) → Fits (req_fields h) → req_of_bytes le (req_bytes le h) ≡ h
  unfolding req_bytes req_of_bytes
  req_of_bytes-req_bytes h f = λ i. record {
    magic = get-pack le (take 0 (req_fields h)) 2 h.magic (drop 1 (req_fields h)) f.0 i;
    ver = get-pack le (take 1 (req_fields h)) 1 h.ver (drop 2 (req_fields h)) f.1.0 i;
    format = get-pack le (take 2 (req_fields h)) 1 h.format (drop 3 (req_fields h)) f.1.1.0 i;
    action = get-pack le (take 3 (req_fields h)) 4 h.action (drop 4 (req_fields h)) f.1.1.1.0 i;
    seq = get-pack le (take 4 (req_fields h)) 8 h.seq (drop 5 (req_fields h)) f.1.1.1.1.0 i;
    client_id =
        get-pack le (take 5 (req_fields h)) 8 h.client_id (drop 6 (req_fields h)) f.1.1.1.1.1.0 i;
    msg_len =
        get-pack le (take 6 (req_fields h)) 4 h.msg_len (drop 7 (req_fields h)) f.1.1.1.1.1.1.0 i;
    blob_len =
        get-pack le (take 7 (req_fields h)) 4 h.blob_len (drop 8 (req_fields h)) f.1.1.1.1.1.1.1.0
          i;
  }

  resp_of_bytes-resp_bytes :
      (h : RespHead) → Fits (resp_fields h) → resp_of_bytes le (resp_bytes le h) ≡ h
  unfolding resp_bytes resp_of_bytes
  resp_of_bytes-resp_bytes h f = λ i. record {
    magic = get-pack le (take 0 (resp_fields h)) 2 h.magic (drop 1 (resp_fields h)) f.0 i;
    ver = get-pack le (take 1 (resp_fields h)) 1 h.ver (drop 2 (resp_fields h)) f.1.0 i;
    flag = get-pack le (take 2 (resp_fields h)) 1 h.flag (drop 3 (resp_fields h)) f.1.1.0 i;
    msg_len = get-pack le (take 3 (resp_fields h)) 4 h.msg_len (drop 4 (resp_fields h)) f.1.1.1.0 i;
    seq = get-pack le (take 4 (resp_fields h)) 8 h.seq (drop 5 (resp_fields h)) f.1.1.1.1.0 i;
    blob_len =
        get-pack le (take 5 (resp_fields h)) 4 h.blob_len (drop 6 (resp_fields h)) f.1.1.1.1.1.0 i;
  }

  -- A request's head whose fields fit their widths is read back from its bytes as it was written if
  -- its magic number and its version are the protocol's; a wrong magic number is an I/O error, and a
  -- wrong version behind the right magic number a version error.
  pub decode_req_head-req_bytes :
      (h : ReqHead)
      → Fits (req_fields h)
      → decode_req_head le (req_bytes le h)
        ≡ some (
            if h.magic == rpc_magic
            then (if h.ver == rpc_version_1 then ok h else err version)
            else err io)
  unfolding decode_req_head
  decode_req_head-req_bytes h f =
      rw (length-req_bytes h) (ap (λ k. some (checked_req k)) (req_of_bytes-req_bytes h f))

  -- The same of a response's head.
  pub decode_resp_head-resp_bytes :
      (h : RespHead)
      → Fits (resp_fields h)
      → decode_resp_head le (resp_bytes le h)
        ≡ some (
            if h.magic == rpc_magic
            then (if h.ver == rpc_version_1 then ok h else err version)
            else err io)
  unfolding decode_resp_head
  decode_resp_head-resp_bytes h f =
      rw (length-resp_bytes h) (ap (λ k. some (checked_resp k)) (resp_of_bytes-resp_bytes h f))
