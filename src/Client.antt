-- ===== src/Client.antt =====
-- stream/src/client: the client's side of a connection. A task that ends without a response is given
-- its error by `set_rpc_error` and handed to `ClientFacts::error_handle`, which is the user's: it is
-- recorded as the pair of the task and the error.
pub mod Map
pub mod Task
pub mod Timer
pub mod Failover
pub mod Pool
pub mod Stream
