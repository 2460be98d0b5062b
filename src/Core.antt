-- ===== src/Core.antt =====
-- The directory src/core: strings, and what the threads share.
pub mod Ctype
pub mod Text
pub mod Timeout
pub mod ActorManager
pub mod AtomMap
pub mod BlockingQueue
