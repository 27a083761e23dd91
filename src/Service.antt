-- ===== src/Service.antt =====
-- src/rpc_service.c: the registry of instances, interfaces and members, and the dispatch of calls by it.
pub mod Registry
pub mod Dispatch
pub mod Members
pub mod Tests
pub mod Worker
