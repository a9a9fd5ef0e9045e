-- ===== src/Examples/Calls.antt =====
-- The writing side of the connection and the API layer (src/) at concrete inputs.
use occams_rpc.Base.{ℕ, refl, true, false, Option, some, none, List, [], ◌∷◌, arith, replicate}
use occams_rpc.Error.{service}
use occams_rpc.Io.Write.{Buffered}
use occams_rpc.Proto.{encode_req}
use occams_rpc.Proto.Layout.{little_endian}
use occams_rpc.Tcp.Write.{write_req}
use occams_rpc.Tcp.Write.Delivery.{Arrives, write_req-read_req}
use occams_rpc.Api.Server.{ServerResp, set_rpc_error}
use occams_rpc.Api.Client.{ClientReq, make_req}
use occams_rpc.Examples.Wire.{room, hello}
use occams_rpc.Examples.Streams.{keeper}

-- A fresh connection of a small buffer, and one on which two bytes wait.
abbrev pub fresh : Buffered (List ℕ)
fresh = record { front = record { mem = replicate 8 0; pos = 0 }; inner = [] }

abbrev in_use : Buffered (List ℕ)
in_use = record { front = record { mem = 7 ∷ 8 ∷ 0 ∷ 0 ∷ []; pos = 2 }; inner = 6 ∷ [] }

write_req-read_req_example :
    Arrives keeper 99 little_endian
      (λ n. true)
      false
      room
      5
      hello
      (1 ∷ 2 ∷ 3 ∷ [])
      (write_req keeper 99 (encode_req little_endian room 5 hello).0 (some (9 ∷ 9 ∷ [])) true fresh)
write_req-read_req_example =
    write_req-read_req keeper 99 little_endian (λ n. true) false room 5 hello (1 ∷ 2 ∷ 3 ∷ []) fresh
      (record { inside = omega arith }, tt) refl (omega arith) (omega arith) (omega arith)
      (omega arith) (λ b. refl) (record { msg_fits = omega arith; blob_fits = omega arith }) refl

abbrev asked : ClientReq
asked = make_req (97 ∷ 46 ∷ 98 ∷ []) (1 ∷ [])

abbrev first : List ℕ → Option ℕ
first [] = none
first (x ∷ xs) = some x

abbrev refuse : List ℕ → ServerResp
refuse name = set_rpc_error 7 service
