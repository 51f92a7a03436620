-- ===== src/Urdp/Machine.antt =====
-- A flow of src/rdp/urdp_flow.cpp in its surroundings: what can happen to it, one thing after the
-- other, each at its own time: what the application, the shared layer and the timer call, and the calls
-- that the flow posted. Left out are connecting by a host name, and punching holes.
pub mod Phase
pub mod Calls
use p2engine.Prelude.{Bool, List, Option, [], ℕ, ◌∷◌}
use p2engine.Urdp.Api.{Reliability, async_connect, async_send, run_posted}
use p2engine.Urdp.Clock.{on_timer, ping, set_ping_interval}
use p2engine.Urdp.Flow.{Flow}
use p2engine.Urdp.Lifecycle.{block_async_receiving, close, keep_async_receiving, set_flow_socket}
use p2engine.Urdp.Process.{Readings, called_by_sharedlayer_on_recvd}
use p2engine.Urdp.Types.{Effect}

pub data Event : Type 0 where
  connects : ℕ → List ℕ → Option ℕ → Event
  sends : Reliability → List ℕ → ℕ → Event
  pings : Event
  sets_interval : ℕ → Event
  receives : Event
  blocks : Event
  gets_socket : Bool → Event
  closes : Bool → Event
  datagram : List ℕ → ℕ → Readings → Event
  timer_fires : Event
  posted_runs : Effect → Event

unfoldable pub step : ℕ → Event → Flow → Flow
step now (connects remote domain time_out) f = async_connect remote domain time_out now f
step now (sends how bytes msg_type) f = async_send how bytes msg_type now f
step now pings f = (ping now f).0
step now (sets_interval t) f = set_ping_interval t now f
step now receives f = keep_async_receiving f
step now blocks f = block_async_receiving f
step now (gets_socket sock) f = set_flow_socket sock f
step now (closes graceful) f = close graceful now f
step now (datagram bytes from readings) f = called_by_sharedlayer_on_recvd now bytes from readings f
step now timer_fires f = on_timer now f
step now (posted_runs call) f = run_posted now call f

unfoldable pub run : List (ℕ × Event) → Flow → Flow
run [] f = f
run ((now, event) ∷ rest) f = run rest (step now event f)
