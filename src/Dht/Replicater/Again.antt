-- ===== src/Dht/Replicater/Again.antt =====
-- Lemmas on a key that is stored again.
use epyx.Dht.Process
use epyx.Dht.Process.Setter.Outcome.{Outcome}
