-- ===== src/Examples/Servers.antt =====
-- A connection of stream/src/server at a concrete run.
use occams_rpc.Base.{
  ℕ, ◌+◌, ◌*◌, ◌≤◌, ◌≡◌, refl, sym, subst, true, false, some, none, List, [], ◌∷◌, ◌++◌, arith,
  replicate, length,
}
use occams_rpc.Base.Int.{ℤ, pos}
use occams_rpc.Base.Result.{ok, err}
use occams_rpc.Client.Task.{TaskStruct, end_task}
use occams_rpc.Client.Task.Trip.{ComesBack, variant-ComesBack}
use occams_rpc.Error.{num}
use occams_rpc.Error.Numbers.{RpcErrCodec, NumType, num_codec, num_encode}
use occams_rpc.Error.Numbers.RoundTrip.{carried-num_codec}
use occams_rpc.Io.Write.{flush, write_all, write_buffered}
use occams_rpc.Proto.{
  num_action, get_action, decode_req_head, req_of_bytes, encode_resp, encode_internal, encode_error,
  write_resp_head, resp_bytes,
}
use occams_rpc.Proto.Layout.{little_endian}
use occams_rpc.Server.Conn.{
  Dispatch, Conn, Reach, Step, start, later, read, returns, done, next, writes, drained, flushes,
  closes, closed, stopped, server_conn,
}
use occams_rpc.Server.Conn.Ledger.{Balances, tally, answers, Reach-Balances}
use occams_rpc.Server.Conn.Close.{closed_answers}
use occams_rpc.Server.Conn.Drain.{Ends, stay, drains}
use occams_rpc.Server.Conn.Served.{End, ReadsAll, AllEnd, none_left, and_one, well, quick, served}
use occams_rpc.Server.Task.Trip.{Answered, FullAnswered, full_answers}
use occams_rpc.Tcp.Client.{returned, rpc_error, custom_error, ended_ok, read_resp}
use occams_rpc.Tcp.Client.InternalTrip.{read_resp-encode_internal}
use occams_rpc.Error.{timeout}
use occams_rpc.Server.Task.{Variant, VariantFull}
use occams_rpc.Server.Task.Closure.{dispatch_closure, DoneVariant}
use occams_rpc.Tcp.{read_exact}
use occams_rpc.Tcp.Server.{RpcSvrReq, read_req}
use occams_rpc.Tcp.Write.{write_resp, write_resp_internal, close_conn}
use occams_rpc.Error.Text.{from_utf8}
use occams_rpc.Io.Write.Front.{buffered_sink}
use occams_rpc.Examples.Wire.{room, waiting}
use occams_rpc.Examples.Streams.{keeper}
use occams_rpc.Examples.Calls.{fresh}

-- A dispatch whose codec takes a message as it is, and errors of a byte.
abbrev echo : Dispatch (Variant (List ℕ) ℤ (Unit {0})) (DoneVariant (List ℕ) ℤ (Unit {0}))
echo =
    dispatch_closure (num_codec (λ t. 255) NumType.u8) (λ m. some m)
      (λ m b. (b ++ m, some (length m))) tt

abbrev Board : Type 0
Board = Conn (List ℕ) (Variant (List ℕ) ℤ (Unit {0})) (DoneVariant (List ℕ) ℤ (Unit {0}))

-- A ping with the number 9, and a request of three bytes with the number 7 and a blob.
abbrev zeros : List ℕ
zeros = replicate 7 0

abbrev ping_bytes : List ℕ
ping_bytes = 37 ∷ 77 ∷ 1 ∷ 0 ∷ 0 ∷ 0 ∷ 0 ∷ 0 ∷ 9 ∷ zeros ++ (5 ∷ zeros ++ replicate 8 0)

abbrev hello_bytes : List ℕ
hello_bytes =
    37 ∷ 77 ∷ 1 ∷ 0 ∷ 3 ∷ 0 ∷ 0 ∷ 0 ∷ 7 ∷ zeros
    ++ (5 ∷ zeros ++ (3 ∷ 0 ∷ 0 ∷ 0 ∷ 2 ∷ 0 ∷ 0 ∷ 0 ∷ 1 ∷ 2 ∷ 3 ∷ 9 ∷ 9 ∷ []))

abbrev hello_task : Variant (List ℕ) ℤ (Unit {0})
hello_task = record {
  seq = 7;
  action = num_action (pos 3);
  msg = 1 ∷ 2 ∷ 3 ∷ [];
  blob = some (9 ∷ 9 ∷ []);
  res = none;
  noti = some tt;
}

abbrev Steps : Board → Board → Type 0
Steps = Step echo keeper 99 little_endian (λ n. true) (λ s. s)

abbrev Runs : Board → Board → Type 0
Runs = Reach echo keeper 99 little_endian (λ n. true) (λ s. s)

abbrev begin : Board
begin = server_conn (ping_bytes ++ hello_bytes) fresh

-- The ping and the request are answered, the client closes, and so does the server.
whole_run :
    (c : Board) × Runs begin c
    × (c.writer ≡ closed)
    × (c.asked ≡ 7 ∷ 9 ∷ [])
    × (length c.out.inner ≡ 45)
    × (c.sent ≡ ok (hello_task, ok tt) ∷ err (9, none) ∷ [])
unfolding read_req decode_req_head req_of_bytes from_utf8 write_resp write_resp_internal close_conn
    encode_resp encode_internal encode_error write_resp_head resp_bytes buffered_sink write_buffered
    flush write_all read_exact little_endian get_action
whole_run = (
  _,
  later
      (later
        (later
          (later
            (later
              (later
                (later
                  (later
                    (later
                      (later (later (later start (read false refl)) (read false refl))
                        (next (err (9, none)) [] refl refl))
                      (writes room (err (9, none)) refl (omega arith)))
                    (returns 7 true refl))
                  (read true refl))
                (done [] [] hello_task (hello_task, ok tt) refl refl))
              (next (ok (hello_task, ok tt)) [] refl refl))
            (writes room (ok (hello_task, ok tt)) refl (omega arith)))
          (drained refl refl))
        (flushes refl))
      (closes refl refl refl refl),
  refl,
  refl,
  refl,
  refl,
)

Reach-Balances_example : Balances echo 7 whole_run.0
Reach-Balances_example =
    Reach-Balances echo keeper 99 little_endian (λ n. true) (λ s. s) (ping_bytes ++ hello_bytes)
      fresh whole_run.1 7

closed_answers_example :
    let c = whole_run.0 in
    (c.reader ≡ stopped)
    × (c.held ≡ [])
    × ((n : ℕ) → tally n c.asked + tally n c.refused ≡ answers echo n c.sent + tally n c.dropped)
closed_answers_example =
    closed_answers echo keeper 99 little_endian (λ n. true) (λ s. s) (ping_bytes ++ hello_bytes)
      fresh whole_run.1 whole_run.2

-- The reader has ended while an answer waits.
abbrev last_answer : Board
last_answer = record begin { reader = stopped; queue = err (9, none) ∷ [] }

drains_example :
    (0 ≤ 4 * 1 + 4) × Ends echo keeper 99 little_endian (λ n. true) (λ s. s) last_answer
drains_example =
    drains echo keeper 99 little_endian (λ n. true) (λ s. s) last_answer (refl, refl) 0 last_answer
      stay

abbrev read_ends : List End
read_ends =
    some (7, ended_ok (1 ∷ 2 ∷ 3 ∷ []) (some (9 ∷ 9 ∷ []))) ∷ some (9, ended_ok [] none) ∷ []

whole_run-AllEnd : AllEnd waiting little_endian echo whole_run.0.sent read_ends
whole_run-AllEnd =
    subst (λ s. AllEnd waiting little_endian echo s read_ends) (sym whole_run.5)
      (and_one
        (well (hello_task, ok tt) (1 ∷ 2 ∷ 3 ∷ []) (some (9 ∷ 9 ∷ [])) (λ b. refl) (omega arith)
          (omega arith) (omega arith) refl refl refl)
        (and_one (quick 9 none (omega arith) tt) none_left))

served_example :
    ReadsAll waiting little_endian whole_run.0.out.inner
      (some (9, ended_ok [] none) ∷ some (7, ended_ok (1 ∷ 2 ∷ 3 ∷ []) (some (9 ∷ 9 ∷ []))) ∷ [])
      []
served_example =
    served waiting little_endian echo keeper 99 (λ s. s) (λ n. true) (ping_bytes ++ hello_bytes)
      fresh (λ s v. (refl, v)) (record { inside = omega arith }, tt) refl refl whole_run.1
      whole_run.2 whole_run-AllEnd

read_resp-encode_internal_example :
    read_resp waiting little_endian
      (encode_internal little_endian room 9 (some timeout) ++ (4 ∷ []))
    ≡ returned (ok true) (some (9, rpc_error timeout)) (4 ∷ [])
read_resp-encode_internal_example =
    read_resp-encode_internal little_endian room waiting 9 (some timeout) (4 ∷ []) (omega arith)
      (omega arith) refl

abbrev hello_req : RpcSvrReq
hello_req = record {
  seq = 7;
  action = num_action (pos 3);
  msg = 1 ∷ 2 ∷ 3 ∷ [];
  blob = some (9 ∷ 9 ∷ []);
}

abbrev hello_full : VariantFull (List ℕ) (List ℕ) ℤ (Unit {0})
hello_full = record {
  seq = 7;
  action = num_action (pos 3);
  req = 1 ∷ 2 ∷ 3 ∷ [];
  req_blob = some (9 ∷ 9 ∷ []);
  resp = none;
  resp_blob = none;
  res = none;
  noti = some tt;
}

full_answers_example :
    FullAnswered
      (num_codec (λ t. 255) NumType.u8)
      waiting
      little_endian
      (λ m. some m)
      (λ m b. (b ++ m, some (length m)))
      hello_req
      tt
      (ok tt)
      hello_full
      none
      []
      (some (6 ∷ []))
full_answers_example =
    full_answers (num_codec (λ t. 255) NumType.u8) waiting little_endian (λ m. some m)
      (λ m b. (b ++ m, some (length m))) hello_req tt (ok tt) hello_full none [] (some (6 ∷ []))
      refl refl (omega arith) refl (omega arith, omega arith, refl, refl)

-- A struct of the client that waits for the answer to this request.
abbrev hello_struct : TaskStruct (List ℕ) (List ℕ) ℤ (Unit {0})
hello_struct = record {
  seq = 7;
  req = 1 ∷ 2 ∷ 3 ∷ [];
  resp = none;
  resp_blob = none;
  res = none;
  noti = some tt;
}

abbrev byte_errors : RpcErrCodec ℤ
byte_errors = num_codec (λ t. 255) NumType.u8

variant-ComesBack_example :
    Answered byte_errors waiting little_endian
      (λ m. some m)
      (λ m b. (b ++ m, some (length m)))
      hello_req
      tt
      (err (pos 5))
      hello_task
      (4 ∷ [])
      (4 ∷ [])
      none
    × ComesBack byte_errors
        (λ m. some m)
        hello_struct
        waiting
        little_endian
        (end_task byte_errors (λ m. some m) (custom_error (num 5)) hello_struct)
        tt
        (err (pos 5))
        none
        none
unfolding num_codec num_encode
variant-ComesBack_example =
    variant-ComesBack byte_errors (λ m. some m) hello_struct waiting little_endian (λ m. some m)
      (λ m b. (b ++ m, some (length m))) hello_req tt (err (pos 5)) hello_task (4 ∷ []) (4 ∷ [])
      none none tt refl (λ b. refl) (omega arith) refl (omega arith)
      (refl, carried-num_codec (λ t. 255) NumType.u8 (pos 5) (omega arith), tt) refl
