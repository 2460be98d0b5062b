-- ===== src/N2np.antt =====
-- The N2NP layer (n2np/).
pub mod NodeId
pub mod Packet
pub mod Stream
pub mod Relay
pub mod Node
pub mod Bootstrap
