-- ===== src/Urdp/Clock/Once.antt =====
-- How often `__on_clock` of src/rdp/urdp_flow.cpp may call itself.
use p2engine.Urdp.Clock.Still.{Still}
use p2engine.Urdp.Flow.{Flow}
