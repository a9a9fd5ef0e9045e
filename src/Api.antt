-- ===== src/Api.antt =====
-- src/: the API layer, which names a service and a method in the action and carries the request, the
-- response and the user's errors through the user's codec.
pub mod Server
pub mod Client
pub mod Call
pub mod Dispatch
