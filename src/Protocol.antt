-- ===== src/Protocol.antt =====
-- internal/protocol: the strict JSON decoder of protocol.go and the schemas of schema.go.
pub mod Escapes
pub mod Strings
pub mod Numbers
pub mod Lexemes
pub mod Decode
pub mod Consumed
pub mod Shorter
pub mod Fuel
pub mod Rational
pub mod Same
pub mod Schema
pub mod Rules
pub mod Contract
pub mod Document
pub mod Obeys
pub mod Validated
