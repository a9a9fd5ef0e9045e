-- ===== src/Macros/ClientEnum/Arrival.antt =====
-- From a client's enum (stream/macros/src/client_task_enum.rs) to the server's
-- (stream/macros/src/server_task_enum.rs): the variant that a task's action leads to.
use occams_rpc.Base.{ℕ, ◌≡◌, sym, subst, ◌∙◌, true, Option, some, some-injective, List, get_elem?}
use occams_rpc.Base.Result.{ok}
use occams_rpc.Proto.{RpcAction}
use occams_rpc.Macros.Actions.{Variant}
use occams_rpc.Macros.ServerEnum.{
  EnumArg, ServerEnum, Inner, server_task_enum_impl, decode_req, get_action,
}
use occams_rpc.Macros.ServerEnum.Routes.{KeepsAction, route, routed, decode_req-route}
use occams_rpc.Macros.ClientEnum.{Arm, ClientTaskImpl, client_task_enum_impl, enum_impl}
use occams_rpc.Macros.ClientEnum.Arms.{attribute_action, client_task_enum_impl_lem}

module _ {T E C O N S F P M Q : Type 0} (client : ClientTaskImpl T E C O N)
    (server : Inner S F P M Q) (keeps : KeepsAction server) where
  -- The task in the k-th variant of the client's enum, whose attribute gives this action, is decoded by
  -- the server's enum in the first of its variants that lists the action, and the decoded task has the
  -- action of the client's. The conditions: both enums are accepted, the server's with `req`, and the
  -- inner types of the server keep the action that they were decoded with.
  pub get_action-Arrives :
      (error_type : Option (List ℕ)) (cvs : List Variant) (arms : List Arm) (args : List EnumArg)
      (name : List ℕ) (svs : List Variant) (e : ServerEnum) (k : ℕ) (v : Variant) (task : T)
      (a : RpcAction) (q : Q)
      → client_task_enum_impl error_type cvs ≡ some arms
      → server_task_enum_impl args name svs ≡ some e
      → e.attrs.req ≡ true
      → get_elem? cvs k ≡ some v
      → attribute_action client.get_action v.attrs task ≡ some a
      → let sent = (enum_impl arms client).get_action (k, task) in
        (decode_req server e sent q ≡ routed server a q (route 0 svs a))
        × ((decoded : ℕ × S)
            → decode_req server e sent q ≡ ok decoded
            → get_action server e decoded ≡ some a)
  get_action-Arrives error_type cvs arms args name svs e k v task a q c s r g x =
      let sent = (enum_impl arms client).get_action (k, task) in
      let same : a ≡ sent =
        some-injective _ _
          (sym x ∙ (client_task_enum_impl_lem client error_type cvs arms c k v g).0 task) in
      let (d, h) = decode_req-route server keeps args name svs e a q s r in
      subst
        (λ b.
          (decode_req server e b q ≡ routed server a q (route 0 svs a))
          × ((decoded : ℕ × S)
              → decode_req server e b q ≡ ok decoded
              → get_action server e decoded ≡ some a))
        same (d, h)
