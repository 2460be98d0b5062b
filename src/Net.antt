-- ===== src/Net.antt =====
-- Addresses and their texts in the network layer (net/).
pub mod Address
pub mod Uri
