-- ===== src/Parser.antt =====
-- The directory src/parser: cutting a stream into lines and packets.
pub mod Packet
pub mod Line
pub mod Gtt
pub mod Http
