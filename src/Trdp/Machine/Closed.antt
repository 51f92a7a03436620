-- ===== src/Trdp/Machine/Closed.antt =====
-- Runs of a flow of src/rdp/trdp_flow.cpp after it was closed.
use p2engine.Prelude.{
  Bool, List, Option, [], ap, arith, false, refl, some, sym, true, ℕ, ◌&&◌, ◌∙◌, ◌∷◌, ◌≡◌,
}
use p2engine.Trdp.Flow.{TcpApp, TcpFlow, block_receiving, cancel_all, tcp_close}
use p2engine.Trdp.Machine.{
  TcpEvent, close_state_posted, conn_timer_fires, connected_posted, connection_done, data_done,
  domain_done, domain_length_done, header_done, ping_timer_fires, reply_done, request_done,
  resolve_done, tcp_blocks, tcp_closes, tcp_connects, tcp_pings, tcp_receives, tcp_run, tcp_sends,
  tcp_sends_unreliable, tcp_sets_interval, tcp_step, write_done,
}
use p2engine.Trdp.Machine.Silent.{
  IsShut, Seen, calls, is_late, seen, seen-cancelled, seen-completion, seen-conn_timer, seen-ping,
  seen-ping_interval, seen-ping_timer, seen-receives, seen-resolved, seen-sends_unreliable,
  seen-tcp_close, seen-tcp_send, seen-to_close_state, tcp_close-IsShut,
}
use p2engine.Trdp.Send.{tcp_send_reliable, tcp_send_semireliable}
use p2engine.Trdp.Types.{data_pkt, st_closed}

abbrev pub all_late : ℕ → List (ℕ × TcpEvent) → Bool
all_late cancel [] = true
all_late cancel ((now, event) ∷ rest) = is_late cancel event && all_late cancel rest

seen-tcp_step :
    (app : TcpApp) (layer : Option (List ℕ → Bool)) (now : ℕ) (event : TcpEvent) (f : TcpFlow)
    → IsShut f
    → is_late f.op_cancel event ≡ true
    → seen (tcp_step app layer now event f) ≡ seen f
unfolding tcp_step tcp_send_reliable tcp_send_semireliable block_receiving
seen-tcp_step app layer now (tcp_connects o address port name) f s late = absurd (ground arith)
seen-tcp_step app layer now (tcp_sends true bytes t) f s late =
    seen-tcp_send now bytes data_pkt true (some t) false f s
seen-tcp_step app layer now (tcp_sends false bytes t) f s late =
    seen-tcp_send now bytes data_pkt false (some t) false f s
seen-tcp_step app layer now (tcp_sends_unreliable bytes t) f s late =
    seen-sends_unreliable now bytes t f s
seen-tcp_step app layer now tcp_pings f s late = seen-ping now f s
seen-tcp_step app layer now tcp_receives f s late = seen-receives f s
seen-tcp_step app layer now tcp_blocks f s late = refl
seen-tcp_step app layer now tcp_closes f s late = seen-tcp_close f s
seen-tcp_step app layer now (tcp_sets_interval t) f s late = seen-ping_interval t f
seen-tcp_step app layer now (write_done ec alert stamp) f s late =
    (seen-completion app layer now ec [] stamp f s.shut).4 alert
seen-tcp_step app layer now (header_done ec bytes stamp) f s late =
    (seen-completion app layer now ec bytes stamp f s.shut).0
seen-tcp_step app layer now (data_done ec bytes stamp) f s late =
    (seen-completion app layer now ec bytes stamp f s.shut).1
seen-tcp_step app layer now (domain_length_done ec bytes stamp) f s late =
    (seen-cancelled app layer ec bytes stamp f late).0
seen-tcp_step app layer now (domain_done ec bytes stamp) f s late =
    (seen-cancelled app layer ec bytes stamp f late).1
seen-tcp_step app layer now (resolve_done ec addresses stamp) f s late =
    seen-resolved app ec addresses stamp f s
seen-tcp_step app layer now (connection_done o ec rest stamp) f s late =
    (seen-completion app layer now ec rest stamp f s.shut).5 o
seen-tcp_step app layer now (request_done ec stamp) f s late =
    (seen-completion app layer now ec [] stamp f s.shut).3
seen-tcp_step app layer now (reply_done ec bytes stamp) f s late =
    (seen-completion app layer now ec bytes stamp f s.shut).2
seen-tcp_step app layer now conn_timer_fires f s late = seen-conn_timer app f.conn_timer f s
seen-tcp_step app layer now ping_timer_fires f s late = seen-ping_timer now f.ping_timer f s
seen-tcp_step app layer now (close_state_posted ec stamp) f s late =
    seen-to_close_state app ec stamp f s
seen-tcp_step app layer now (connected_posted ec stamp) f s late =
    (seen-completion app layer now ec [] stamp f s.shut).6

IsShut-of_seen : (f g : TcpFlow) → seen g ≡ seen f → IsShut f → IsShut g
IsShut-of_seen f g e s = record {
  shut = ap (λ (v : Seen). v.0) e ∙ s.shut;
  cancelled = ap (λ (v : Seen). v.2) e ∙ s.cancelled ∙ sym (ap (λ (v : Seen). v.1) e);
}

both : (a b : Bool) → (a && b) ≡ true → (a ≡ true) × (b ≡ true)
both a b h = ground arith

seen-tcp_run :
    (app : TcpApp) (layer : Option (List ℕ → Bool)) (events : List (ℕ × TcpEvent)) (f : TcpFlow)
    → IsShut f
    → all_late f.op_cancel events ≡ true
    → seen (tcp_run app layer events f) ≡ seen f
unfolding tcp_run
seen-tcp_run app layer [] f s late = refl
seen-tcp_run app layer ((now, event) ∷ rest) f s late =
    let g = tcp_step app layer now event f in
    let l = both (is_late f.op_cancel event) (all_late f.op_cancel rest) late in
    let e : seen g ≡ seen f = seen-tcp_step app layer now event f s l.0 in
    let same_cancel : g.op_cancel ≡ f.op_cancel = ap (λ (v : Seen). v.2) e in
    seen-tcp_run app layer rest g (IsShut-of_seen f g e s)
      (ap (λ c. all_late c rest) same_cancel ∙ l.1)
    ∙ e

-- A flow that was closed stays closed and makes no further call into the application, whatever the
-- application and the shared layer do, and whatever operations, timers and posted calls come late
-- in whatever order; until a new `connect`. A read of a caller's request must carry a cancelled stamp.
pub closed_is_silent :
    (app : TcpApp) (layer : Option (List ℕ → Bool)) (events : List (ℕ × TcpEvent)) (f : TcpFlow)
    → all_late f.op_stamp events ≡ true
    → (let after = tcp_run app layer events (tcp_close f) in
        (after.state ≡ st_closed) × (calls after.trace ≡ calls f.trace))
unfolding tcp_close cancel_all
closed_is_silent app layer events f late =
    let e = seen-tcp_run app layer events (tcp_close f) (tcp_close-IsShut f) late in
    (ap (λ (v : Seen). v.0) e, ap (λ (v : Seen). v.3) e)
