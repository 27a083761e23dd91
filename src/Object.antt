-- ===== src/Object.antt =====
-- src/rpc_object.c: the object model. The data type stands in `Object.Types`.
pub mod Tests
pub mod Types
pub mod Platform
pub mod Value
pub mod Array
pub mod Dictionary
pub mod Fits
pub mod Equal
pub mod Content
pub mod Copy
pub mod Build
pub mod Pack
pub mod Unpack
