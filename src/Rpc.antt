-- ===== src/Rpc.antt =====
-- src/qworker/rpc.py: requests and responses of the supervisor's socket, the server's handling of a
-- connection and the client's calls. A frame is known by the value that `json.loads` reads from its
-- line; `json.loads` reads back what `json.dumps` wrote.
pub mod Size
pub mod Fields
pub mod Requests
pub mod Dispatch
pub mod Report
pub mod Stream
pub mod Server
pub mod Client
pub mod Bounds
pub mod Exchange
pub mod Streaming
pub mod Watching
pub mod Flags
pub mod Readers
pub mod Parameters
pub mod Accepts
pub mod Calls
