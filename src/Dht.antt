-- ===== src/Dht.antt =====
-- The distributed hash table (dht/).
pub mod Id
pub mod KBucket
pub mod Packet
pub mod Process
pub mod Node
pub mod Public
pub mod Replicater
