-- ===== src/Query.antt =====
-- src/rpc_query.c: paths, rules and iteration over objects.
mod Tests
pub mod Text
pub mod Path
pub mod Rules
pub mod Iter
