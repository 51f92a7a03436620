-- ===== src/Trdp/Machine/Silent.antt =====
-- A flow of src/rdp/trdp_flow.cpp that was closed: what comes late does nothing.
use p2engine.Prelude.{
  Bool, List, Option, [], ap, ap₂, false, if_true, if◌then◌else◌, ltb, none, not, refl, some, sym,
  true, ℕ, ◌&&◌, ◌*◌, ◌==◌, ◌||◌, ◌∷◌, ◌≡◌,
}
use p2engine.Trdp.Connect.{
  connect_done, domain_length_read, domain_read, name_resolved, reply_read, request_sent,
}
use p2engine.Trdp.Flow.{
  Opening, TcpApp, TcpFlow, cancel_all, is_cancelled, is_over, tcp_allert_connected, tcp_close,
  to_close_state,
}
use p2engine.Trdp.Machine.{
  TcpEvent, domain_done, domain_length_done, fire, on_conn_timer, on_ping_timer, run_timer_call,
  tcp_connects,
}
use p2engine.Trdp.Receive.{data_read, fill, header_read, start_receiving, tcp_keep_async_receiving}
use p2engine.Trdp.Send.{
  handle_sent_packet, tcp_ping, tcp_ping_interval, tcp_send, tcp_send_unreliable,
}
use p2engine.Trdp.Types.{
  ConnTimer, PacketType, SysError, TcpEffect, TcpPhase, TimerCall, call_do_close,
  call_to_close_state, data_pkt, in_phase, is_call, st_closed, st_connected,
}
use p2engine.Urdp.Flow.{mod_less_equal}
use p2engine.Urdp.Types.{bound}

-- The calls into the application, of a trace.
abbrev pub calls : List TcpEffect → List TcpEffect
calls [] = []
calls (e ∷ es) = if is_call e then e ∷ calls es else calls es

-- Closed, and all that was started is cancelled.
pub record IsShut (f : TcpFlow) : Type 0 where
  pub shut : f.state ≡ st_closed
  pub cancelled : f.op_cancel ≡ f.op_stamp

-- What a flow that is shut keeps.
abbrev pub Seen : Type 0
Seen = TcpPhase × ℕ × ℕ × List TcpEffect

abbrev pub seen : TcpFlow → Seen
seen f = (f.state, f.op_stamp, f.op_cancel, calls f.trace)

-- Not a new `connect`; and a read of the request that a caller sends carries a stamp that is
-- cancelled, because its coroutine does not look at the state.
abbrev pub is_late : ℕ → TcpEvent → Bool
is_late cancel (tcp_connects o address port name) = false
is_late cancel (domain_length_done ec bytes stamp) = mod_less_equal stamp cancel
is_late cancel (domain_done ec bytes stamp) = mod_less_equal stamp cancel
is_late cancel _ = true

or_true : (a b : Bool) → b ≡ true → (a || b) ≡ true
or_true true b h = refl
or_true false b h = h

over_closed : (f : TcpFlow) (stamp : ℕ) → f.state ≡ st_closed → is_over f stamp ≡ true
unfolding is_over
over_closed f stamp e =
    or_true (is_cancelled f stamp) _ (ap (λ (p : TcpPhase). in_phase p st_closed) e)

not_connected_closed : (f : TcpFlow) → f.state ≡ st_closed → in_phase f.state st_connected ≡ false
not_connected_closed f e = rw e

pub tcp_close-IsShut : (f : TcpFlow) → IsShut (tcp_close f)
unfolding tcp_close cancel_all
tcp_close-IsShut f = record { shut = refl; cancelled = refl }

pub seen-tcp_close : (f : TcpFlow) → IsShut f → seen (tcp_close f) ≡ seen f
unfolding tcp_close cancel_all
seen-tcp_close f s =
    ap₂ (λ (p : TcpPhase) (c : ℕ). let v : Seen = (p, f.op_stamp, c, calls f.trace) in v)
      (sym s.shut) (sym s.cancelled)

-- A function that does nothing once the flow is over.
seen_over :
    (f g : TcpFlow) (stamp : ℕ)
    → f.state ≡ st_closed
    → seen (if is_over f stamp then f else g) ≡ seen f
seen_over f g stamp e = ap seen (if_true _ _ _ (over_closed f stamp e))

seen_if :
    (f : TcpFlow) (b : Bool) (x y : TcpFlow)
    → seen x ≡ seen f
    → seen y ≡ seen f
    → seen (if b then x else y) ≡ seen f
seen_if f true x y h k = h
seen_if f false x y h k = k

pub seen-to_close_state :
    (app : TcpApp) (ec : SysError) (stamp : ℕ) (f : TcpFlow)
    → IsShut f
    → seen (to_close_state app ec stamp f) ≡ seen f
unfolding to_close_state
seen-to_close_state app ec stamp f s = seen_over f _ stamp s.shut

pub seen-tcp_send :
    (now : ℕ) (bytes : List ℕ) (type : PacketType) (alert : Bool) (msg_type : Option ℕ) (q : Bool)
    (f : TcpFlow)
    → IsShut f
    → seen (tcp_send now bytes type alert msg_type q f) ≡ seen f
unfolding tcp_send is_call
seen-tcp_send now bytes type alert msg_type q f s =
    ap seen (if_true _ _ _ (ap not (not_connected_closed f s.shut)))

pub seen-ping : (now : ℕ) (f : TcpFlow) → IsShut f → seen (tcp_ping now f).0 ≡ seen f
unfolding tcp_ping
seen-ping now f s =
    ap (λ (r : TcpFlow × SysError). seen r.0)
      (if_true _ _ _ (ap not (not_connected_closed f s.shut)))

pub seen-sends_unreliable :
    (now : ℕ) (bytes : List ℕ) (t : ℕ) (f : TcpFlow)
    → IsShut f
    → seen (tcp_send_unreliable now bytes t f) ≡ seen f
unfolding tcp_send_unreliable
seen-sends_unreliable now bytes t f s =
    seen_if f (ltb (8 * 1024) f.qued_sending_size) f _ refl
      (seen-tcp_send now bytes data_pkt false (some t) false f s)

pub seen-receives : (f : TcpFlow) → IsShut f → seen (tcp_keep_async_receiving f) ≡ seen f
unfolding tcp_keep_async_receiving start_receiving
seen-receives f s =
    let g : TcpFlow = record f { rx = record (f.rx) { is_recv_blocked = false } } in
    seen_if f (f.is_recv_blocked && not f.receiving) _ f (seen_over g _ f.op_stamp s.shut) refl

seen-run_timer_call :
    (app : TcpApp) (call : TimerCall) (f : TcpFlow)
    → IsShut f
    → seen (run_timer_call app call f) ≡ seen f
unfolding run_timer_call
seen-run_timer_call app call_do_close f s = seen-tcp_close f s
seen-run_timer_call app (call_to_close_state ec stamp) f s = seen-to_close_state app ec stamp f s

seen-fire :
    (app : TcpApp) (waiting : Option ℕ) (bound : Option TimerCall) (f : TcpFlow)
    → IsShut f
    → seen (fire app waiting bound f) ≡ seen f
unfolding fire
seen-fire app none bound f s = refl
seen-fire app (some n) none f s = refl
seen-fire app (some n) (some call) f s = seen-run_timer_call app call f s

pub seen-conn_timer :
    (app : TcpApp) (t : Option ConnTimer) (f : TcpFlow)
    → IsShut f
    → seen (on_conn_timer app t f) ≡ seen f
unfolding on_conn_timer
seen-conn_timer app none f s = refl
seen-conn_timer app (some t) f s =
    let g : TcpFlow = record f {
      life = record (f.life) { conn_timer = some (record t { waiting = none }) };
    } in
    seen-fire app t.waiting t.bound g (record { shut = s.shut; cancelled = s.cancelled })

pub seen-ping_timer :
    (now : ℕ) (t : Option (Option ℕ)) (f : TcpFlow)
    → IsShut f
    → seen (on_ping_timer now t f) ≡ seen f
unfolding on_ping_timer
seen-ping_timer now none f s = refl
seen-ping_timer now (some none) f s = refl
seen-ping_timer now (some (some t)) f s = seen-ping now f s

pub seen-ping_interval : (t : ℕ) (f : TcpFlow) → seen (tcp_ping_interval t f) ≡ seen f
unfolding tcp_ping_interval
seen-ping_interval t f = seen_if f (t == f.ping_interval) f _ refl refl

pub seen-resolved :
    (app : TcpApp) (ec : SysError) (addresses : List ℕ) (stamp : ℕ) (f : TcpFlow)
    → IsShut f
    → seen (name_resolved app ec addresses stamp f) ≡ seen f
unfolding name_resolved
seen-resolved app ec [] stamp f s = seen_over f _ stamp s.shut
seen-resolved app ec (a ∷ rest) stamp f s = seen_over f _ stamp s.shut

-- A read that comes in.
abbrev header_in : List ℕ → TcpFlow → TcpFlow
header_in bytes f = record f { rx = record (f.rx) { header_buf = fill bytes f.header_buf } }

abbrev body_in : List ℕ → TcpFlow → TcpFlow
body_in bytes f = record f { rx = record (f.rx) { recv_buf = fill bytes f.recv_buf } }

-- The completions.
pub seen-completion :
    (app : TcpApp) (layer : Option (List ℕ → Bool)) (now : ℕ) (ec : SysError) (bytes : List ℕ)
    (stamp : ℕ) (f : TcpFlow)
    → f.state ≡ st_closed
    → (seen (header_read app ec bytes stamp f) ≡ seen f)
      × (seen (data_read app now ec bytes stamp f) ≡ seen f)
      × (seen (reply_read app ec bytes stamp f) ≡ seen f)
      × (seen (request_sent app ec stamp f) ≡ seen f)
      × ((alert : Bool) → seen (handle_sent_packet app now ec alert stamp f) ≡ seen f)
      × ((o : Opening) → seen (connect_done app o ec bytes stamp f) ≡ seen f)
      × (seen (tcp_allert_connected app ec stamp f) ≡ seen f)
unfolding header_read data_read reply_read request_sent handle_sent_packet connect_done
    tcp_allert_connected
seen-completion app layer now ec bytes stamp f e =
    let idle : TcpFlow = record f { tx = record (f.tx) { sending = false } } in
    (
      seen_over (header_in bytes f) _ stamp e,
      seen_over (body_in bytes f) _ stamp e,
      seen_over (header_in bytes f) _ stamp e,
      seen_over f _ stamp e,
      λ alert. seen_over idle _ stamp e,
      λ o. seen_over f _ stamp e,
      seen_over f _ stamp e,
    )

pub seen-cancelled :
    (app : TcpApp) (layer : Option (List ℕ → Bool)) (ec : SysError) (bytes : List ℕ) (stamp : ℕ)
    (f : TcpFlow)
    → mod_less_equal stamp f.op_cancel ≡ true
    → (seen (domain_length_read ec bytes stamp f) ≡ seen f)
      × (seen (domain_read app layer ec bytes stamp f) ≡ seen f)
unfolding domain_length_read domain_read is_cancelled
seen-cancelled app layer ec bytes stamp f c =
    (ap seen (if_true _ (header_in bytes f) _ c), ap seen (if_true _ (body_in bytes f) _ c))
