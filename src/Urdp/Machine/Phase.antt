-- ===== src/Urdp/Machine/Phase.antt =====
-- The order of the states over the whole life of a flow of src/rdp/urdp_flow.cpp.
use p2engine.Prelude.{List, [], ap, arith, ℕ, ◌∷◌, ◌≡◌, ◌≤◌}
use p2engine.Urdp.Clock.Forward.{Forward-on_timer}
use p2engine.Urdp.Clock.Phase.{phase-ping}
use p2engine.Urdp.Flow.{Flow}
use p2engine.Urdp.Lifecycle.{block_async_receiving, set_flow_socket}
use p2engine.Urdp.Lifecycle.Calls.{Forward-close, phase-keep_async_receiving}
use p2engine.Urdp.Lifecycle.Phase.{
  Forward, Forward-of_eq, Forward-refl, Forward-trans, IsMarked, phase,
}
use p2engine.Urdp.Machine.{
  Event, blocks, closes, connects, datagram, gets_socket, pings, posted_runs, receives, run, sends,
  sets_interval, step, timer_fires,
}
use p2engine.Urdp.Machine.Calls.{
  Forward-async_connect, Forward-run_posted, phase-async_send, phase-set_ping_interval,
}
use p2engine.Urdp.Process.Forward.{Forward-called_by_sharedlayer_on_recvd}
use p2engine.Urdp.Types.{TcpState, closed, rank}

Forward-step : (now : ℕ) (event : Event) (f : Flow) → Forward (phase f) (phase (step now event f))
unfolding step block_async_receiving set_flow_socket
Forward-step now (connects remote domain time_out) f =
    Forward-async_connect remote domain time_out now f
Forward-step now (sends how bytes msg_type) f =
    Forward-of_eq (phase-async_send how bytes msg_type now f)
Forward-step now pings f = Forward-of_eq (phase-ping now f)
Forward-step now (sets_interval t) f = Forward-of_eq (phase-set_ping_interval t now f)
Forward-step now receives f = Forward-of_eq (phase-keep_async_receiving f)
Forward-step now blocks f = Forward-refl (phase f)
Forward-step now (gets_socket sock) f = Forward-refl (phase f)
Forward-step now (closes graceful) f = Forward-close graceful now f
Forward-step now (datagram bytes from readings) f =
    Forward-called_by_sharedlayer_on_recvd now bytes from readings f
Forward-step now timer_fires f = Forward-on_timer now f
Forward-step now (posted_runs call) f = Forward-run_posted now call f

Forward-run : (l : List (ℕ × Event)) (f : Flow) → Forward (phase f) (phase (run l f))
unfolding run
Forward-run [] f = Forward-refl (phase f)
Forward-run ((now, event) ∷ rest) f =
    Forward-trans (phase f) (phase (step now event f)) (phase (run rest (step now event f)))
      (Forward-step now event f) (Forward-run rest (step now event f))

-- Whatever happens to a flow, in any order and at any times, its state never goes back in the order
-- INIT, LISTEN, SYN_SENT, SYN_RCVD, ESTABLISHED, CLOSING, WATING_FIN_ACK, CLOSED; and if `__close` was
-- called on it in case it is in CLOSING or WATING_FIN_ACK at first, the same holds at the end.
pub run_advances :
    (l : List (ℕ × Event)) (f : Flow)
    → IsMarked (phase f)
    → (rank f.state ≤ rank (run l f).state) × IsMarked (phase (run l f))
run_advances l f m = Forward-run l f m

is_last : (s : TcpState) → 7 ≤ rank s → s ≡ closed
is_last s h = ground arith

-- A flow that is closed stays closed, whatever happens to it.
pub closed_forever : (l : List (ℕ × Event)) (f : Flow) → f.state ≡ closed → (run l f).state ≡ closed
closed_forever l f e =
    let r : rank f.state ≡ 7 = ap rank e in
    let le = (run_advances l f (λ a b. absurd (omega (arith, b, r)))).0 in
    is_last (run l f).state (omega (arith, le, r))
