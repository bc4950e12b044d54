-- ===== src/Simple/Samples.antt =====
-- The serialization of the empty tuple, the payload in privsep/examples/simple.rs.
use privsep_rs.Prelude.{some, []}
use privsep_rs.Imsg.{Serde}

-- bincode of the empty tuple
abbrev pub unit : Serde (Unit {0})
unit = record { serialize = λ payload. some []; deserialize = λ bytes. some tt }
