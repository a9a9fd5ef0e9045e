-- ===== src/Tcp/Client.antt =====
-- transport/tcp/src/client.rs: `TcpClient::read_resp`, with `_recv_resp_body`, `_recv_error` and
-- `_recv_and_dump`. What becomes of the task is recorded as how it ends; `unreachable!` and a
-- capacity overflow are panics.
pub mod ResponseTrip
pub mod InternalTrip
use occams_rpc.Base.{
  ℕ, zero, suc, ◌+◌, ◌-◌, ◌%◌, ◌^◌, Bool, true, false, Option, some, none, List, [], ◌&&◌, ltb,
  ◌==◌, if◌then◌else◌,
}
use occams_rpc.Base.Int.{ℤ, pos, negsuc, as_i32}
use occams_rpc.Base.Result.{Result, ok, err}
use occams_rpc.Error.{RpcIntErr, io, decode, EncodedErr, num, buf, from_str, rpc_err_prefix}
use occams_rpc.Error.Text.{from_utf8, starts_with}
use occams_rpc.Proto.{RespHead, decode_resp_head, rpc_resp_header_len, resp_flag_has_err_string}
use occams_rpc.Proto.Layout.{ByteOrder}
use occams_rpc.Tcp.{read_exact}
use occams_rpc.Tcp.Server.{as_usize}

-- How the client ends a task.
pub data TaskEnd : Type 0 where
  ended_ok : List ℕ → Option (List ℕ) → TaskEnd
  custom_error : EncodedErr → TaskEnd
  rpc_error : RpcIntErr → TaskEnd

-- The result of a read: what is returned, the task that it ended, and the bytes still unread.
pub data Read : Type 0 where
  returned : Result RpcIntErr Bool → Option (ℕ × TaskEnd) → List ℕ → Read
  panics : Read

-- `RpcIntErr::from_str` behind the tests of the prefix and of UTF-8.
abbrev pub parse_text : Option (List ℕ) → Option RpcIntErr
parse_text none = none
parse_text (some s) = from_str s

abbrev pub parse_rpc_err : List ℕ → Option RpcIntErr
parse_rpc_err b = if starts_with b rpc_err_prefix then parse_text (from_utf8 b) else none

-- How a task ends that is answered by an error text.
abbrev pub text_end_as : List ℕ → Option RpcIntErr → TaskEnd
text_end_as b none = custom_error (buf b)
text_end_as b (some e) = rpc_error e

abbrev pub text_end : List ℕ → TaskEnd
text_end b = text_end_as b (parse_rpc_err b)

-- `isize::MAX`: a `Vec` cannot grow beyond it.
abbrev pub isize_max : ℕ
isize_max = 2 ^ 63 - 1

-- Which numbers of requests the timer has a task for, whether such a task has room for a blob and
-- decodes a message, and whether `Buffer::alloc` succeeds.
pub record Tasks : Type 0 where
  pub registered : ℕ → Bool
  pub reserves : ℕ → Bool
  pub decodes : List ℕ → Bool
  pub alloc : ℤ → Bool

dumped : Option (ℕ × TaskEnd) → Option (List ℕ × List ℕ) → Read
dumped e none = returned (err io) e []
dumped e (some (b, s)) = returned (ok true) e s

recv_err_text : ℕ → Option (List ℕ × List ℕ) → Read
recv_err_text seq none = returned (err io) (some (seq, rpc_error io)) []
recv_err_text seq (some (b, s)) = returned (ok true) (some (seq, text_end b)) s

-- `_recv_error`
pub recv_error : RespHead → List ℕ → Read
unfolding recv_err_text
recv_error h s =
    if h.flag == 1
    then returned (ok true) (some (h.seq, custom_error (num h.msg_len))) s
    else if h.flag == 2
    then (if ltb isize_max (as_usize (as_i32 h.blob_len))
        then panics
        else recv_err_text h.seq (read_exact (as_usize (as_i32 h.blob_len)) s))
    else panics

-- The length of a response that no task waits for. The sum is one of u32.
abbrev pub dump_len : RespHead → ℕ
dump_len h =
    if h.flag == 0
    then (h.msg_len + h.blob_len) % 2 ^ 32
    else if h.flag == resp_flag_has_err_string
    then h.blob_len
    else 0

module _ (t : Tasks) where
  -- `_recv_and_dump`
  pub recv_and_dump : ℕ → Option (ℕ × TaskEnd) → List ℕ → Read
  unfolding dumped
  recv_and_dump l e s =
      if t.alloc (as_i32 l) then dumped e (read_exact l s) else returned (err io) e s

  -- The end of `_recv_resp_body`: the message is decoded, if there is one.
  abbrev pub finish_task : RespHead → List ℕ → Option (List ℕ) → List ℕ → Read
  finish_task h msg blob s =
      if ltb 0 h.msg_len
      then (if t.decodes msg
          then returned (ok true) (some (h.seq, ended_ok msg blob)) s
          else returned (ok true) (some (h.seq, rpc_error decode)) s)
      else returned (ok true) (some (h.seq, ended_ok msg blob)) s

  recv_blob_bytes : RespHead → List ℕ → Option (List ℕ × List ℕ) → Read
  recv_blob_bytes h msg none = returned (err io) (some (h.seq, rpc_error io)) []
  recv_blob_bytes h msg (some (b, s)) = finish_task h msg (some b) s

  -- The blob, for which the task may have no room.
  pub recv_blob : RespHead → ℤ → List ℕ → List ℕ → Read
  unfolding recv_blob_bytes recv_and_dump
  recv_blob h (negsuc n) msg s = finish_task h msg none s
  recv_blob h (pos zero) msg s = finish_task h msg none s
  recv_blob h (pos (suc n)) msg s =
      if t.reserves (suc n)
      then recv_blob_bytes h msg (read_exact (suc n) s)
      else recv_and_dump (suc n) (some (h.seq, rpc_error decode)) s

  recv_msg_bytes : RespHead → Option (List ℕ × List ℕ) → Read
  unfolding recv_blob
  recv_msg_bytes h none = returned (err io) (some (h.seq, rpc_error io)) []
  recv_msg_bytes h (some (msg, s)) = recv_blob h (as_i32 h.blob_len) msg s

  pub recv_msg : RespHead → List ℕ → Read
  unfolding recv_msg_bytes
  recv_msg h s =
      if ltb 0 h.msg_len
      then recv_msg_bytes h (read_exact h.msg_len s)
      else recv_blob h (as_i32 h.blob_len) [] s

  -- `_recv_resp_body`
  pub recv_resp_body : RespHead → List ℕ → Read
  unfolding recv_msg recv_error recv_and_dump
  recv_resp_body h s =
      if t.registered h.seq
      then (if ltb 0 h.flag then recv_error h s else recv_msg h s)
      else if ltb 0 (dump_len h)
      then recv_and_dump (dump_len h) none s
      else returned (ok true) none s

  recv_head : Option (Result RpcIntErr RespHead) → List ℕ → Read
  unfolding recv_resp_body
  recv_head none s = panics
  recv_head (some (err e)) s = returned (err e) none s
  recv_head (some (ok h)) s = recv_resp_body h s

  recv_from : ByteOrder → Option (List ℕ × List ℕ) → Read
  unfolding recv_head
  recv_from le none = returned (err io) none []
  recv_from le (some (b, s)) = recv_head (decode_resp_head le b) s

  -- `read_resp`, where the closing channel stays quiet.
  pub read_resp : ByteOrder → List ℕ → Read
  unfolding recv_from
  read_resp le s = recv_from le (read_exact rpc_resp_header_len s)
