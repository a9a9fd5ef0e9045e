-- ===== src/Macros/Mux.antt =====
-- `#[service_mux_struct]` (macros/src/service_mux_struct.rs): the `serve` of a struct of services. Each
-- field is a service, with the SERVICE_NAME of its type; they are asked in the order of the fields.
use occams_rpc.Base.{ℕ, List, [], ◌∷◌, if◌then◌else◌}
use occams_rpc.Error.{RpcIntErr}
use occams_rpc.Error.Text.{bytes_eq}
use occams_rpc.Api.Server.{set_rpc_error}
use occams_rpc.Macros.Service.{ServerReq, Handled, answered}

-- A field: its service's name and what that makes of a request.
pub record Field : Type 0 where
  pub name : List ℕ
  pub serve : ServerReq → Handled

unfoldable pub mux_serve : List Field → ServerReq → Handled
mux_serve [] req = answered (set_rpc_error req.seq RpcIntErr.service)
mux_serve (f ∷ fs) req =
    let rest = mux_serve fs req in if bytes_eq req.service f.name then f.serve req else rest
