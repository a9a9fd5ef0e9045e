-- ===== src/Examples/Wire.antt =====
-- Requests and responses of stream/src/proto.rs and transport/tcp/src at concrete inputs.
use occams_rpc.Base.{
  ℕ, ◌≡◌, refl, sym, ap, append-nil, true, false, some, List, [], ◌∷◌, ◌++◌, arith, replicate,
}
use occams_rpc.Base.Int.{pos, negsuc, as_u32}
use occams_rpc.Base.Result.{ok, err}
use occams_rpc.Error.{unreachable, rpc}
use occams_rpc.Proto.Layout.{little_endian}
use occams_rpc.Proto.{ClientTask, ServerTaskEncode, ReqHead, num_action, encode_req, encode_resp}
use occams_rpc.Tcp.Server.{read_req}
use occams_rpc.Tcp.RequestTrip.{read_req-encode_req, opt_bytes}
use occams_rpc.Tcp.Client.{Tasks, returned, ended_ok, read_resp}
use occams_rpc.Tcp.Client.ResponseTrip.{read_resp-encode_resp_ok, read_resp-encode_resp_err, end_of}

abbrev pub room : List ℕ
room = replicate 64 0

abbrev pub hello : ClientTask
hello = record {
  get_action = num_action (pos 3);
  seq = 7;
  encode_req = λ b. (b ++ (1 ∷ 2 ∷ 3 ∷ []), some 3);
  req_blob = some (9 ∷ 9 ∷ []);
}

read_req-encode_req_example :
    let (b, r) = encode_req little_endian room 5 hello in
    (r ≡ ok (some (9 ∷ 9 ∷ [])))
    × (read_req (λ n. true) little_endian false (b ++ (9 ∷ 9 ∷ (4 ∷ [])))
        ≡ ok (
          record {
            seq = 7;
            action = num_action (pos 3);
            msg = 1 ∷ 2 ∷ 3 ∷ [];
            blob = some (9 ∷ 9 ∷ []);
          },
          4 ∷ [],
        ))
read_req-encode_req_example =
    read_req-encode_req little_endian (λ n. true) false room 5 hello (1 ∷ 2 ∷ 3 ∷ []) (4 ∷ [])
      (omega arith) (omega arith) (omega arith) (omega arith) (λ b. refl)
      (record { msg_fits = omega arith; blob_fits = omega arith }) refl

abbrev pub answer : ServerTaskEncode
answer = record { encode_resp = λ b. (b ++ (1 ∷ 2 ∷ []), 7, ok (2, some (9 ∷ []))) }

abbrev pub waiting : Tasks
waiting = record {
  registered = λ s. true;
  reserves = λ n. true;
  decodes = λ m. true;
  alloc = λ n. true;
}

read_resp-encode_resp_ok_example :
    let (b, n, x) = encode_resp little_endian room answer in
    read_resp waiting little_endian (b ++ (opt_bytes x ++ (4 ∷ [])))
    ≡ returned (ok true) (some (7, ended_ok (1 ∷ 2 ∷ []) (some (9 ∷ [])))) (4 ∷ [])
read_resp-encode_resp_ok_example =
    read_resp-encode_resp_ok waiting little_endian room answer 7 (1 ∷ 2 ∷ []) (some (9 ∷ []))
      (4 ∷ []) (omega arith) (omega arith) (λ b. refl) (omega arith) (omega arith) refl refl refl

abbrev refusal : ServerTaskEncode
refusal = record { encode_resp = λ b. (b, 7, err (rpc unreachable)) }

read_resp-encode_resp_err_example :
    read_resp waiting little_endian ((encode_resp little_endian room refusal).0 ++ (4 ∷ []))
    ≡ returned (ok true) (some (7, end_of (rpc unreachable))) (4 ∷ [])
read_resp-encode_resp_err_example =
    read_resp-encode_resp_err waiting little_endian room refusal 7 (rpc unreachable) (4 ∷ [])
      (omega arith) (omega arith)
      (λ b. ap (λ x. (x, 7, err (rpc unreachable))) (sym (append-nil b))) tt refl

abbrev minus_one : ReqHead
minus_one = record {
  magic = 19749;
  ver = 1;
  format = 0;
  action = as_u32 (negsuc 0);
  seq = 7;
  client_id = 5;
  msg_len = 0;
  blob_len = 0;
}
