-- ===== src/Trdp/Connect/Retry.antt =====
-- What becomes of `connect` in src/rdp/trdp_flow.cpp when the first address does not answer.
use p2engine.Prelude.{
  Bool, List, Option-cases, ap, false, if_false, if_true, if◌then◌else◌, inl, inr, refl, subst, sym,
  true, ℕ, ◌||◌, ◌∙◌, ◌∷◌, ◌≡◌,
}
use p2engine.Trdp.Connect.{connect_done, connect_failed, retry_connect, start_connecting}
use p2engine.Trdp.Flow.{
  Opening, TcpApp, TcpFlow, cancel_all, init_tcp, is_cancelled, is_over, next_tcp_stamp,
  open_inited, open_socket, reopen, set_conn_timer, to_close_state,
}
use p2engine.Trdp.Machine.Silent.{calls}
use p2engine.Trdp.Types.{
  SysError, TimerCall, call_to_close_state, in_phase, is_call, is_error, peer_timed_out,
  socket_already_open, st_closed, st_init,
}
use p2engine.Urdp.Flow.{mod_less_equal}

-- A function that begins with the test does nothing with a cancelled stamp.
over_cancelled : (f : TcpFlow) (stamp : ℕ) → is_cancelled f stamp ≡ true → is_over f stamp ≡ true
unfolding is_over
over_cancelled f stamp e = ap (λ b. b || in_phase f.state st_closed) e

-- What the second attempt leaves: no connection to tell, nothing told, and the stamp cancelled.
abbrev pub IsLost : ℕ → TcpFlow → TcpFlow → Type 0
IsLost stamp f g =
    (is_cancelled g stamp ≡ true) × (g.connection ≡ false) × (calls g.trace ≡ calls f.trace)

IsLost-if :
    (stamp : ℕ) (f : TcpFlow) (b : Bool) (x y : TcpFlow × SysError)
    → IsLost stamp f x.0
    → IsLost stamp f y.0
    → IsLost stamp f (if b then x else y).0
IsLost-if stamp f true x y h k = h
IsLost-if stamp f false x y h k = k

IsLost-branch :
    (stamp : ℕ) (f : TcpFlow) (b : Bool) (x y : TcpFlow)
    → IsLost stamp f x
    → IsLost stamp f y
    → IsLost stamp f (if b then x else y)
IsLost-branch stamp f true x y h k = h
IsLost-branch stamp f false x y h k = k

IsLost-init_tcp :
    (id stamp : ℕ) (f : TcpFlow)
    → mod_less_equal stamp f.op_stamp ≡ true
    → IsLost stamp f (init_tcp id f)
unfolding init_tcp next_tcp_stamp cancel_all is_cancelled
IsLost-init_tcp id stamp f issued = (issued, refl, refl)

IsLost-open_inited :
    (a b : SysError) (stamp : ℕ) (f g : TcpFlow)
    → IsLost stamp f g
    → IsLost stamp f (open_inited a b g).0
unfolding open_inited open_socket is_cancelled
IsLost-open_inited a b stamp f g h =
    IsLost-if stamp f (in_phase g.state st_init) _ (g, socket_already_open)
      (IsLost-if stamp f _ _ _ h h) h

IsLost-reopen :
    (o : Opening) (stamp : ℕ) (f : TcpFlow)
    → mod_less_equal stamp f.op_stamp ≡ true
    → IsLost stamp f (reopen o f).0
unfolding reopen
IsLost-reopen o stamp f issued =
    IsLost-open_inited o.opened o.bound_to stamp f (init_tcp o.drawn_id f)
      (IsLost-init_tcp o.drawn_id stamp f issued)

IsLost-set_conn_timer :
    (call : TimerCall) (seconds stamp : ℕ) (f g : TcpFlow)
    → IsLost stamp f g
    → IsLost stamp f (set_conn_timer call seconds g)
unfolding set_conn_timer is_cancelled
IsLost-set_conn_timer call seconds stamp f g h = elim (Option-cases g.conn_timer) [
  | inl e ↦ rw (e, set_conn_timer) h
  | inr (t, e) ↦ rw (e, set_conn_timer) h
]

-- Nothing that begins with the test of the stamp does anything.
close_lost :
    (app : TcpApp) (ec : SysError) (stamp : ℕ) (g : TcpFlow)
    → is_cancelled g stamp ≡ true
    → to_close_state app ec stamp g ≡ g
unfolding to_close_state
close_lost app ec stamp g c = if_true _ _ _ (over_cancelled g stamp c)

done_lost :
    (app : TcpApp) (o : Opening) (ec : SysError) (rest : List ℕ) (stamp : ℕ) (g : TcpFlow)
    → is_cancelled g stamp ≡ true
    → connect_done app o ec rest stamp g ≡ g
unfolding connect_done
done_lost app o ec rest stamp g c = if_true _ _ _ (over_cancelled g stamp c)

IsLost-retry_connect :
    (app : TcpApp) (o : Opening) (address : ℕ) (rest : List ℕ) (stamp : ℕ) (f : TcpFlow)
    → mod_less_equal stamp f.op_stamp ≡ true
    → IsLost stamp f (retry_connect app o address rest stamp f)
unfolding retry_connect start_connecting is_cancelled is_call
IsLost-retry_connect app o address rest stamp f issued =
    let made = reopen o (record f { life = record (f.life) { socket_open = false } }) in
    let lost : IsLost stamp f made.0 =
      IsLost-reopen o stamp (record f { life = record (f.life) { socket_open = false } }) issued in
    IsLost-branch stamp f (is_error made.1) (to_close_state app made.1 stamp made.0) _
      (subst (IsLost stamp f) (sym (close_lost app made.1 stamp made.0 lost.0)) lost)
      (IsLost-set_conn_timer (call_to_close_state peer_timed_out stamp) 6 stamp f made.0 lost)

-- A failed attempt to connect, of a flow that is not over, with addresses left to try, under a stamp
-- that the flow has issued: the socket is opened again, but that cancels the attempt's own stamp and
-- forgets the connection. However the second attempt ends, its completion changes nothing, nor does
-- the timer's call; the application was told nothing.
pub retry_is_lost :
    (app : TcpApp) (o again : Opening) (ec later timeout : SysError) (address : ℕ)
    (rest left : List ℕ) (stamp : ℕ) (f : TcpFlow)
    → is_over f stamp ≡ false
    → is_error ec ≡ true
    → mod_less_equal stamp f.op_stamp ≡ true
    → (let g = connect_done app o ec (address ∷ rest) stamp f in
        (g.connection ≡ false)
        × (calls g.trace ≡ calls f.trace)
        × (connect_done app again later left stamp g ≡ g)
        × (to_close_state app timeout stamp g ≡ g))
unfolding connect_done connect_failed
retry_is_lost app o again ec later timeout address rest left stamp f live failing issued =
    let e : connect_done app o ec (address ∷ rest) stamp f
        ≡ retry_connect app o address rest stamp f =
      if_false _ _ _ live ∙ if_true _ _ _ failing in
    let lost : IsLost stamp f (connect_done app o ec (address ∷ rest) stamp f) =
      subst (IsLost stamp f) (sym e) (IsLost-retry_connect app o address rest stamp f issued) in
    (
      lost.1,
      lost.2,
      done_lost app again later left stamp _ lost.0,
      close_lost app timeout stamp _ lost.0,
    )
