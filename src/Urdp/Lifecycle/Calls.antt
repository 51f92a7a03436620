-- ===== src/Urdp/Lifecycle/Calls.antt =====
-- The calls of src/rdp/urdp_flow.cpp into the application, `close` and the functions `__allert_`, and
-- the order of the states.
use p2engine.Prelude.{Bool, Bool-cases, List, if◌then◌else◌, inl, inr, ltb, refl, true, ℕ, ◌≡◌}
use p2engine.Urdp.Flow.{Flow, is_canceled_op}
use p2engine.Urdp.Lifecycle.{
  allert_accepted, allert_connected, allert_disconnected, allert_received, allert_writeable, close,
  close_flow, is_detached, keep_async_receiving, mark_established, tell_disconnected,
}
use p2engine.Urdp.Lifecycle.Phase.{
  Forward, Forward-close_flow, Forward-if, Forward-refl, Forward-to_closed_state, Forward-of_eq,
  phase,
}
use p2engine.Urdp.Types.{
  ErrorCode, already_connected, connection_reset, host_unreachable, in_progress, not_connected,
  snd_buf_size, success, timed_out, would_block,
}

pub phase-keep_async_receiving : (f : Flow) → phase (keep_async_receiving f) ≡ phase f
unfolding keep_async_receiving
phase-keep_async_receiving f = elim (Bool-cases f.keep_recving) [
  | inl e ↦ rw (e, keep_async_receiving)
  | inr e ↦ rw (e, keep_async_receiving)
]

pub phase-mark_established : (now : ℕ) (f : Flow) → phase (mark_established now f) ≡ phase f
unfolding mark_established
phase-mark_established now f = refl

-- `close` only moves a flow on.
pub Forward-close :
    (graceful : Bool) (now : ℕ) (f : Flow) → Forward (phase f) (phase (close graceful now f))
unfolding close
Forward-close graceful now f =
    Forward-if (phase f) (is_canceled_op f f.op_stamp) f _ (Forward-refl (phase f)) (
      Forward-close_flow graceful now
        (record f { conn = record (f.conn) { disconn_local = true } }))

pub Forward-allert_disconnected :
    (ec : ErrorCode) (f : Flow) → Forward (phase f) (phase (allert_disconnected ec f))
unfolding allert_disconnected
Forward-allert_disconnected ec f =
    Forward-to_closed_state (phase f) (if is_detached f then f else tell_disconnected ec f)

pub Forward-allert_writeable :
    (now : ℕ) (f : Flow) → Forward (phase f) (phase (allert_writeable now f))
unfolding allert_writeable
Forward-allert_writeable now f =
    Forward-if (phase f) (is_detached f) _ _ (Forward-close_flow true now f) (
      Forward-if (phase f) (ltb f.slen snd_buf_size) _ f (Forward-refl (phase f))
        (Forward-refl (phase f)))

pub Forward-allert_received :
    (bytes : List ℕ) (now : ℕ) (f : Flow) → Forward (phase f) (phase (allert_received bytes now f))
unfolding allert_received
Forward-allert_received bytes now f =
    Forward-if (phase f) (is_detached f) _ _ (Forward-close_flow true now f)
      (Forward-refl (phase f))

pub Forward-allert_accepted :
    (now : ℕ) (f : Flow) → Forward (phase f) (phase (allert_accepted now f))
unfolding allert_accepted mark_established
Forward-allert_accepted now f =
    Forward-if (phase f) (is_canceled_op f f.op_stamp) _ _ (Forward-close_flow true now f) (
      Forward-if (phase f) f.acceptor _ _
        (Forward-of_eq (phase-keep_async_receiving (mark_established now f)))
        (Forward-close true now (mark_established now f)))

refused :
    (f : Flow) (now : ℕ) (g : Flow)
    → Forward (phase f) (phase g)
    → Forward (phase f) (
        phase (
          if is_detached (mark_established now f)
          then close_flow true now (mark_established now f)
          else g))
unfolding mark_established
refused f now g h =
    Forward-if (phase f) (is_detached (mark_established now f)) _ g
      (Forward-close_flow true now (mark_established now f)) h

pub Forward-allert_connected :
    (ec : ErrorCode) (now : ℕ) (f : Flow) → Forward (phase f) (phase (allert_connected ec now f))
unfolding allert_connected mark_established
Forward-allert_connected success now f =
    refused f now _ (Forward-of_eq (phase-keep_async_receiving (mark_established now f)))
Forward-allert_connected already_connected now f =
    refused f now _ (Forward-to_closed_state (phase f) _)
Forward-allert_connected in_progress now f = refused f now _ (Forward-to_closed_state (phase f) _)
Forward-allert_connected would_block now f = refused f now _ (Forward-to_closed_state (phase f) _)
Forward-allert_connected not_connected now f = refused f now _ (Forward-to_closed_state (phase f) _)
Forward-allert_connected timed_out now f = refused f now _ (Forward-to_closed_state (phase f) _)
Forward-allert_connected host_unreachable now f =
    refused f now _ (Forward-to_closed_state (phase f) _)
Forward-allert_connected connection_reset now f =
    refused f now _ (Forward-to_closed_state (phase f) _)
