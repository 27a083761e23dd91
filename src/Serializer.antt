-- ===== src/Serializer.antt =====
-- The serializers: src/serializer.
pub mod Json
pub mod Msgpack
