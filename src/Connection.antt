-- ===== src/Connection.antt =====
-- src/rpc_connection.c and the calls of src/rpc_service.c: the two ends of a connection.
pub mod Frames
pub mod Call
pub mod Stream
pub mod Flow
pub mod State
pub mod Handlers
pub mod Calls
pub mod Subscriptions
pub mod Events
pub mod Dispatch
pub mod Delivery
pub mod Requests
pub mod Timeouts
pub mod Closing
pub mod References
pub mod Watching
pub mod Descriptors
pub mod Tests
pub mod Callbacks
