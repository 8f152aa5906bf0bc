-- ===== src/Serial.antt =====
-- The serializers and the compression, commlib/serializer.py and commlib/compression.py.
pub mod Value
pub mod Primitives
pub mod Text
pub mod Compression
pub mod CompressionTests
pub mod Tests
