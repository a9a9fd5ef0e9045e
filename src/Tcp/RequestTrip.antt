-- ===== src/Tcp/RequestTrip.antt =====
-- A request from the client's encoder (stream/src/proto.rs) through the connection to the server's
-- reader (transport/tcp/src/server.rs).
use occams_rpc.Base.{
  ◌-◌, ℕ, ◌%◌, ◌^◌, ◌<◌, ◌≤◌, ◌≡◌, refl, Bool, true, Option, some, none, List, [], ◌∷◌, ◌++◌, arith,
  length, append_assoc, if◌then◌else◌,
}
use occams_rpc.Base.Int.{pos, negsuc, as_i32, as_u32-lt, IsU64}
use occams_rpc.Base.Result.{ok, err}
use occams_rpc.Error.Text.{is_utf8, from_utf8}
use occams_rpc.Proto.Layout.{ByteOrder, Fits}
use occams_rpc.Proto.{
  ReqHead, req_fields, req_bytes, rpc_req_header_len, RpcAction, str, num_action, ClientTask,
  get_action, encode_req, or_high, xor_high, high_bit, opt_length, i32_max,
}
use occams_rpc.Proto.Heads.{length-req_bytes, decode_req_head-req_bytes}
use occams_rpc.Proto.Request.{action_text, action_flag, Writes, head_of, InLimits, encode_req_lem}
use occams_rpc.Tcp.{read_exact-append}
use occams_rpc.Tcp.Server.{read_req, read_action, read_msg, read_blob}

-- An action that a request can carry: a number that is not negative, or a valid text of less than
-- 2^31 bytes.
abbrev pub IsAction : RpcAction → Type 0
IsAction (num_action (pos n)) = n < 2 ^ 31
IsAction (num_action (negsuc n)) = ⊥
IsAction (str s) = (length s < 2 ^ 31) × (is_utf8 s ≡ true)

-- What is written to the connection: the buffer, then the blob.
abbrev pub opt_bytes : Option (List ℕ) → List ℕ
opt_bytes none = []
opt_bytes (some b) = b

-- An empty blob is not told from none.
abbrev pub nonempty : Option (List ℕ) → Option (List ℕ)
nonempty none = none
nonempty (some []) = none
nonempty (some (x ∷ b)) = some (x ∷ b)

abbrev pub Allocates : (ℕ → Bool) → Option (List ℕ) → Type 0
Allocates alloc blob = alloc (opt_length blob) ≡ true

action_flag-lt : (a : RpcAction) → action_flag a < 2 ^ 32
action_flag-lt (num_action n) = as_u32-lt n
action_flag-lt (str s) = ground arith

-- The head of a number is read as the number, and the head of a text as its length.
pub get_action-num :
    (h : ReqHead) (n : ℕ)
    → h.action ≡ action_flag (num_action (pos n))
    → n < 2 ^ 31
    → get_action h ≡ ok (pos n)
unfolding get_action
get_action-num h n e i = rw e (ground arith)

pub get_action-str :
    (h : ReqHead) (s : List ℕ)
    → h.action ≡ action_flag (str s)
    → length s < 2 ^ 31
    → get_action h ≡ err (pos (length s))
unfolding get_action
get_action-str h s e i = text h.action (length s) e i
  where
    text :
        (f n : ℕ)
        → f ≡ or_high (n % 2 ^ 32)
        → n < 2 ^ 31
        → (if high_bit f then err (as_i32 (xor_high f)) else ok (as_i32 f)) ≡ err (pos n)
    text f n e i = rw e (ground arith)

-- A negative action number is not refused: its head is read as that of a text.
pub get_action-negative :
    (h : ReqHead) (n : ℕ)
    → h.action ≡ action_flag (num_action (negsuc n))
    → n < 2 ^ 31
    → get_action h ≡ err (pos (2 ^ 31 - 1 - n))
unfolding get_action
get_action-negative h n e i = rw e (ground arith)

read_action-flag :
    (h : ReqHead) (a : RpcAction) (rest : List ℕ)
    → h.action ≡ action_flag a
    → IsAction a
    → read_action (get_action h) (action_text a ++ rest) ≡ ok (a, rest)
unfolding from_utf8
read_action-flag h (num_action (pos n)) rest e i = rw (get_action-num h n e i)
read_action-flag h (num_action (negsuc n)) rest e i = absurd i
read_action-flag h (str s) rest e i =
    rw (get_action-str h s e i.0, read_exact-append (length s) s rest refl, i.1)

head_of-Fits :
    (client_id : ℕ) (task : ClientTask) (msg : List ℕ)
    → IsU64 client_id
    → IsU64 task.seq
    → InLimits task msg
    → Fits (req_fields (head_of client_id task msg))
head_of-Fits client_id task msg c s l = omega (arith, action_flag-lt task.get_action)

read_msg-append : (msg rest : List ℕ) → read_msg (length msg) (msg ++ rest) ≡ ok (msg, rest)
read_msg-append [] rest = refl
read_msg-append (x ∷ msg) rest =
    ground (arith, read_exact-append (length (x ∷ msg)) (x ∷ msg) rest refl)

read_blob-append :
    (alloc : ℕ → Bool) (blob : Option (List ℕ)) (rest : List ℕ)
    → Allocates alloc blob
    → opt_length blob ≤ i32_max
    → read_blob alloc (as_i32 (opt_length blob)) (opt_bytes blob ++ rest) ≡ ok (nonempty blob, rest)
read_blob-append alloc none rest a h = refl
read_blob-append alloc (some []) rest a h = refl
read_blob-append alloc (some (x ∷ b)) rest a h =
    ground (arith, read_exact-append (length (x ∷ b)) (x ∷ b) rest refl)

module _ (le : ByteOrder) (alloc : ℕ → Bool) (cancelled : Bool) (mem : List ℕ) (client_id : ℕ)
    (task : ClientTask) (msg rest : List ℕ) where
  -- A request within the limits, encoded by the client and written to the connection, is read by the
  -- server as the same request: its number, its action, its message, and its blob, where an empty
  -- blob becomes none. The reader stops exactly at the request's end. The conditions: the buffer has
  -- room for the head, the numbers are of 64 bits, the action is a number that is not negative or a
  -- valid text below 2^31 bytes, and the server can allocate the blob.
  pub read_req-encode_req :
      rpc_req_header_len ≤ length mem
      → IsU64 client_id
      → IsU64 task.seq
      → IsAction task.get_action
      → Writes task msg
      → InLimits task msg
      → Allocates alloc task.req_blob
      → let (b, r) = encode_req le mem client_id task in
        (r ≡ ok task.req_blob)
        × (read_req alloc le cancelled (b ++ (opt_bytes task.req_blob ++ rest))
            ≡ ok (
              record {
                seq = task.seq;
                action = task.get_action;
                msg = msg;
                blob = nonempty task.req_blob;
              },
              rest,
            ))
  unfolding read_req
  read_req-encode_req h c s a w l al = rw (encode_req_lem le mem client_id task msg h w l) (
    refl,
    rw
        (
          append_assoc,
          append_assoc,
          read_exact-append rpc_req_header_len (req_bytes le (head_of client_id task msg)) _
              (length-req_bytes le (head_of client_id task msg)),
          decode_req_head-req_bytes le (head_of client_id task msg)
              (head_of-Fits client_id task msg c s l),
        )
        (rw
          (read_action-flag (head_of client_id task msg) task.get_action
            (msg ++ (opt_bytes task.req_blob ++ rest)) refl a)
          (rw (read_msg-append msg _, read_blob-append alloc task.req_blob rest al l.blob_fits))),
  )
