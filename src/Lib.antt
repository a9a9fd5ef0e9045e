-- ===== src/Lib.antt =====
-- A verification library of occams-rpc: the wire protocol, its transport over byte streams, the errors
-- that cross it, the server's loops that answer requests, the client's side that keeps track of the
-- tasks in flight, and the restart of a server.
--
-- The program. A client encodes a task (stream/src/proto.rs), sends it through a buffered stream
-- (core/src/io/buf_io.rs, transport/tcp/src/client.rs) and registers it with a timer
-- (stream/src/client/timer.rs). The server reads the request (transport/tcp/src/server.rs) in the
-- reader of its connection (stream/src/server/server.rs), dispatches it (stream/src/server/dispatch.rs,
-- by its action in src/server), and its writer encodes a response or an error (core/src/error.rs); the client
-- reads the response, takes its task from the timer and ends it. A task that gets no response ends with
-- an error, after which a failover pool (stream/src/client/failover.rs) may send it to another address.
--
-- The modules.
--   Base      shared names, lists measured by native numbers, machine integers, Result
--   Error     core/src/error.rs: RpcIntErr, EncodedErr, RpcError; Numbers the impls of RpcErrCodec,
--             Equality the impls of PartialEq, Text the validation of UTF-8
--   Proto     stream/src/proto.rs: ReqHead::encode is encode_req, RespHead::encode is encode_resp,
--             decode_head is decode_req_head and decode_resp_head, _encode_error is encode_error;
--             Layout the fields of a head in a byte order, Heads, Request and Response the lemmas
--   Io        core/src/io: readers and writers as the interfaces Source and Sink; Read and Write the
--             loops and buffers of buf_io.rs, Buffer the buffers of buffer.rs
--   Tcp       transport/tcp/src: Server read_req, Client read_resp, on the bytes still to come; Write
--             write_req, write_resp, flush_req and close_conn, on the buffered writer; Addr the addresses
--             and the binding of net.rs
--   Server    stream/src/server: Task the task types of task.rs and mod.rs, Conn the reader and the writer
--             of a connection (server.rs, dispatch.rs) as a step relation
--   Graceful  core/src/graceful.rs: check_recover, new_listener, restart and ready
--   Client    stream/src/client: Timer (timer.rs), Stream (stream.rs and throttler.rs), Failover
--             (failover.rs), Stream/Threads the sender and the receiver of a stream at once, Pool the rounds
--             of a worker and Pool/Monitor all workers at once (pool.rs), Map the maps of tasks, Task the
--             struct of client_task (stream/macros/src/client_task.rs)
--   Api       src/: Server the responses, the dispatch and the service mux, Client make_req and
--             process_res, Call a call from the answer to the result
--   Macros    macros/src and stream/macros/src: Syntax what the macros tell apart of Rust's syntax, Endpoint
--             endpoint_async.rs, Service service.rs, Mux service_mux_struct.rs, Calls a call through all
--             three; ServerEnum server_task_enum.rs, ClientEnum client_task_enum.rs, ClientTask
--             client_task.rs, whose generated impls are in Client/Task
--   Examples  the theorems at concrete inputs
--
-- Conventions. A byte is a number; a text is its bytes. Stateful code takes its state and gives the
-- state after it; a task that ends with an error is listed with it. A channel is a queue, and a task in
-- it waits until the receiver polls. Wrap-around of counters is written out. The loops of Io.Read and
-- Io.Write run on fuel: each round moves a byte or is an interruption, so as many rounds as there are
-- bytes and interruptions are enough. The reading loop of a connection, which the code runs until it
-- fails, runs on fuel without a bound. A symbolic link is followed as often as the file system allows,
-- which is a parameter.
--
-- Code that runs at once (the reader, the tasks and the writer of a connection; the sender and the
-- receiver of a stream; the workers of a pool) is a step relation: a step goes from one await to the
-- next, any order of steps is a run, and what the network, the user's handlers and the file system
-- bring is open. Logs beside the state, which no step reads, say what was asked and answered.
--
-- The macros run at compile time: a macro is a function of the item that it is applied to, a panic is
-- none, and the code that it generates is a function again, over what the user's types and methods do.
--
-- Parameters. The byte order of the heads, the user's codec and tasks, allocation, Errno, the health and
-- the address of a pool, the transport below a stream: each is an argument, with what the code relies on
-- as a named hypothesis. `str::from_utf8` and the hash maps are the standard library's, and modelled.
--
-- Not modelled: listening, accepting and the wait of the server's close, the sockets, timeouts and
-- cancellation, the async runtimes, generics and the generated Debug in the procedural macros, and
-- logging and formatting.
pub mod Base
pub mod Error
pub mod Proto
pub mod Io
pub mod Tcp
pub mod Server
pub mod Graceful
pub mod Client
pub mod Api
pub mod Macros
pub mod Examples
