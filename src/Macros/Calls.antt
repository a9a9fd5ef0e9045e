-- ===== src/Macros/Calls.antt =====
-- A call from the client that `#[endpoint_async]` makes of a trait to the service that `#[service]` makes
-- of an `impl` of it, through a `#[service_mux_struct]`.
use occams_rpc.Base.{
  ℕ, ◌≤◌, ◌<◌, ◌^◌, ◌≡◌, refl, sym, ap, subst, ◌∙◌, Bool, true, Option, none, some, some-injective,
  List, [], append-nil, length, arith,
}
use occams_rpc.Base.Int.{IsU64}
use occams_rpc.Base.Result.{Result, ok, err}
use occams_rpc.Error.{RpcError, user, int_err}
use occams_rpc.Error.Numbers.RoundTrip.{carried}
use occams_rpc.Error.Text.{is_utf8}
use occams_rpc.Proto.{encode_req, rpc_req_header_len, rpc_resp_header_len, u32_max, str}
use occams_rpc.Proto.Layout.{ByteOrder}
use occams_rpc.Tcp.Client.{Tasks}
use occams_rpc.Tcp.Client.ResponseTrip.{IsSmall}
use occams_rpc.Tcp.RequestTrip.{read_req-encode_req}
use occams_rpc.Tcp.Server.{RpcSvrReq, read_req}
use occams_rpc.Api.Server.{ServerResp, set_result, dispatch_req}
use occams_rpc.Api.Client.{ClientReq, make_req, gave, req_task}
use occams_rpc.Api.Call.{IsDistinct, Brings, call_result, call_user_error, call_int_error}
use occams_rpc.Api.Dispatch.{NoDot}
use occams_rpc.Macros.Syntax.{SynType, Method, Item}
use occams_rpc.Macros.Endpoint.{Generated, service_method_of, generate_trait_impl}
use occams_rpc.Macros.Service.{
  ItemImpl, service_name, first_typed, ServiceStatic, is_trait, expand_service, ServerReq, answered,
  Methods, respond, handle_bytes, handle_arg, serve, dispatched, dispatch,
}
use occams_rpc.Macros.Endpoint.Names.{Has, generate_trait_impl-name, split_once-joined}
use occams_rpc.Macros.Service.Reach.{Exposes, expand_service-Reaches, Holds, mux_serve-Holds}
use occams_rpc.Macros.Mux.{Field, mux_serve}

module _ {A R E : Type 0} (methods : Methods A R E) (decode_resp : List ℕ → Option R) (default : R)
    (t : Tasks) (le : ByteOrder) where
  -- What the connection carries back: a response that is encoded, and decoded on the other side, or an
  -- error.
  abbrev pub Carries : Result {0, 0} (RpcError E) R → Type 0
  Carries (ok r) =
      (msg : List ℕ) × (methods.encode r ≡ some msg)
      × (decode_resp msg ≡ some r)
      × (msg ≡ [] → default ≡ r)
      × (length msg ≤ u32_max)
      × (t.reserves 0 ≡ true)
      × (t.decodes msg ≡ true)
  Carries (err (user e)) =
      (carried methods.err_codec e ≡ some e)
      × IsSmall (methods.err_codec.encode e)
      × IsDistinct (methods.err_codec.encode e)
  Carries (err (int_err e)) = Unit {0}

  respond-Brings :
      (asked : ClientReq) (mem rest : List ℕ) (seq : ℕ) (res : Result {0, 0} (RpcError E) R)
      → asked.resp ≡ none
      → rpc_resp_header_len ≤ length mem
      → IsU64 seq
      → t.registered seq ≡ true
      → Carries res
      → Brings methods.err_codec decode_resp default asked t le mem rest seq
          (respond methods seq res)
          (gave res)
  respond-Brings asked mem rest seq (ok r) n room u reg (msg, e, d, z, l, v, w) =
      subst
        (λ o.
          Brings methods.err_codec decode_resp default asked t le mem rest seq (set_result seq o)
            (gave (ok r)))
        (sym e)
        (call_result methods.err_codec decode_resp default asked t le mem rest seq msg r d z n l
          room u reg v w)
  respond-Brings asked mem rest seq (err (user e)) n room u reg (c, small, distinct) =
      call_user_error methods.err_codec decode_resp default asked t le mem rest seq e c small
        distinct room u reg
  respond-Brings asked mem rest seq (err (int_err e)) n room u reg c =
      call_int_error methods.err_codec decode_resp default asked t le mem rest seq e room u reg

  module _ (alloc : ℕ → Bool) (cancelled : Bool) (client_id : ℕ) (fs : List Field) where
    -- The server reads these bytes as one request, and its mux answers so.
    abbrev pub ServerAnswers : List ℕ → ServerResp → Type 0
    ServerAnswers bytes resp =
        (q : RpcSvrReq) × (req : ServerReq) × (read_req alloc le cancelled bytes ≡ ok (q, []))
        × (dispatch q ≡ ok req)
        × (mux_serve fs req ≡ answered resp)

    dispatch-joined :
        (trait_name method_name : List ℕ) (q : RpcSvrReq)
        → NoDot trait_name
        → q.action ≡ str (service_method_of trait_name method_name)
        → dispatch q
          ≡ ok
              (record { seq = q.seq; service = trait_name; method = method_name; req = some q.msg })
    unfolding dispatch dispatch_req
    dispatch-joined trait_name method_name q n e =
        ap (λ a. dispatched q (dispatch_req a)) e
        ∙ ap (λ o. dispatched q (elim o [ some p ↦ ok p | none ↦ err tt ]))
            (split_once-joined trait_name method_name n)

    -- The service answers with what its method makes of the decoded argument.
    service_answers :
        (i : ItemImpl) (svc : ServiceStatic) (m : Method) (arg : A) (buf : List ℕ) (req : ServerReq)
        → expand_service i ≡ some svc
        → service_name i.trait_ i.self_ty ≡ some req.service
        → Exposes (is_trait i.trait_) i.items m
        → req.method ≡ m.ident
        → req.req ≡ some buf
        → Holds fs (record { name = svc.name; serve = serve methods svc })
        → ((ty : SynType) → first_typed m.inputs ≡ some ty → methods.decode ty buf ≡ some arg)
        → mux_serve fs req ≡ answered (respond methods req.seq (methods.run m.ident arg))
    unfolding serve
    service_answers i svc m arg buf req es en he em eb hf dec =
        let (n, (ty, ft, w, reach)) = expand_service-Reaches methods i svc m es he in
        mux_serve-Holds fs (record { name = svc.name; serve = serve methods svc }) req hf
          (some-injective _ _ (sym en ∙ n))
        ∙ reach req em
        ∙ ap (handle_bytes methods req.seq (m.ident, ty)) eb
        ∙ ap (λ o. answered (handle_arg methods req.seq m.ident o)) (dec ty ft)

    -- From end to end: a method of the client that `#[endpoint_async]` makes of a trait returns what the
    -- method of that name returns on the server, a response or an error, where `#[service]` made a
    -- service of an `impl` of that trait and a mux holds it. The server reads the client's bytes as one
    -- request and answers it without a panic, and the client reads the answer to its last byte. The
    -- conditions: the method is exposed, its argument is decoded from the bytes it was encoded to, the
    -- trait's name has no dot, what is sent is within the limits, and the connection carries the result
    -- back, its client's task being registered.
    pub endpoint_call :
        (trait_name : List ℕ) (items : List Item) (gs : List Generated) (g : Generated)
        (i : ItemImpl) (svc : ServiceStatic) (m : Method) (arg : A) (buf mem : List ℕ) (seq : ℕ)
        → generate_trait_impl trait_name items ≡ some gs
        → Has g gs
        → expand_service i ≡ some svc
        → service_name i.trait_ i.self_ty ≡ some trait_name
        → Exposes (is_trait i.trait_) i.items m
        → m.ident ≡ g.ident
        → Holds fs (record { name = svc.name; serve = serve methods svc })
        → NoDot trait_name
        → ((ty : SynType) → first_typed m.inputs ≡ some ty → methods.decode ty buf ≡ some arg)
        → rpc_req_header_len ≤ length mem
        → rpc_resp_header_len ≤ length mem
        → IsU64 client_id
        → IsU64 seq
        → length g.service_method < 2 ^ 31
        → is_utf8 g.service_method ≡ true
        → length buf ≤ u32_max
        → alloc 0 ≡ true
        → t.registered seq ≡ true
        → Carries (methods.run m.ident arg)
        → let asked = record (make_req g.service_method buf) { seq = seq } in
          (resp : ServerResp) × ServerAnswers (encode_req le mem client_id (req_task asked)).0 resp
          × Brings methods.err_codec decode_resp default asked t le mem [] seq resp
              (gave (methods.run m.ident arg))
    endpoint_call trait_name items gs g i svc m arg buf mem seq eg hg es en he ei hf nd dec room_q
          room_r uc us short valid small al reg c =
        let asked = record (make_req g.service_method buf) { seq = seq } in
        let name = generate_trait_impl-name trait_name items gs g eg hg in
        let read =
          read_req-encode_req le alloc cancelled mem client_id (req_task asked) buf [] room_q uc us
            (short, valid) (λ b. refl) (record { msg_fits = small; blob_fits = omega arith }) al in
        let q : RpcSvrReq = record {
          seq = seq;
          action = str g.service_method;
          msg = buf;
          blob = none;
        } in
        let req : ServerReq = record {
          seq = seq;
          service = trait_name;
          method = g.ident;
          req = some buf;
        } in
        (
          respond methods seq (methods.run m.ident arg),
          (
            q,
            req,
            subst (λ b. read_req alloc le cancelled b ≡ ok (q, []))
                (append-nil (encode_req le mem client_id (req_task asked)).0) read.1,
            dispatch-joined trait_name g.ident q nd (ap str name),
            service_answers i svc m arg buf req es en he (sym ei) refl hf dec,
          ),
          respond-Brings asked mem [] seq (methods.run m.ident arg) refl room_r us reg c,
        )
