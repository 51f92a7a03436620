-- ===== src/Trdp/Connect/Handshake.antt =====
-- How two flows of src/rdp/trdp_flow.cpp meet: the request of the one that connects, read by the
-- one that waits, and its reply.
use p2engine.Prelude.{
  Bool, List, Option, [], ap, arith, drop, false, if_false, if◌then◌else◌, length, ltb, none, not,
  refl, some, suc, take, ℕ, ◌%◌, ◌+◌, ◌<◌, ◌==◌, ◌^◌, ◌∙◌, ◌∷◌, ◌≡◌,
}
use p2engine.Trdp.Connect.{
  accept_now, connecting_to, domain_length_read, domain_read, is_acceptance, now_connected,
  offer_flow, read_domain, reply_read, take_request, tcp_accept,
}
use p2engine.Trdp.Flow.{
  TcpApp, TcpFlow, cancel_conn_timer, cancel_timer_at, is_cancelled, is_over, put, tcp_close,
}
use p2engine.Trdp.Receive.{fill, length_field, recreated}
use p2engine.Trdp.Receive.Packet.{fill-recreated}
use p2engine.Trdp.Types.{
  ConnTimer, accept_pkt, conn_pkt, in_phase, no_error, packet_code, st_closed, st_connected,
  start_read_domain, start_write,
}
use p2engine.Urdp.Format.{bytes16}

-- A request of this name was read.
abbrev pub request_known : List ℕ → TcpFlow → TcpFlow
request_known name f = put (start_read_domain (suc (suc (length name))) f.op_stamp) (record f {
  rx = record (f.rx) {
    header_buf = fill (bytes16 (suc (suc (length name))) []) f.header_buf;
    recv_buf = name;
  };
})

request_fits : (n : ℕ) → n < 65534 → (2 + n) % 2 ^ 16 ≡ suc (suc n)
request_fits n h = omega arith

length_of_request :
    (n : ℕ) (rest : List ℕ) → n < 2 ^ 16 → length_field (fill (bytes16 n []) rest) ≡ n
unfolding length_field
length_of_request n rest h = omega arith

-- The length of a request was read.
abbrev length_known : ℕ → TcpFlow → TcpFlow
length_known n f = put (start_read_domain n f.op_stamp) (record f {
  rx = record (f.rx) { header_buf = fill (bytes16 n []) f.header_buf; recv_buf = recreated n };
})

abbrev length_stored : ℕ → TcpFlow → TcpFlow
length_stored n f = record f {
  rx = record (f.rx) { header_buf = fill (bytes16 n []) f.header_buf };
}

domain_length_known :
    (n stamp : ℕ) (f : TcpFlow)
    → 1 < n
    → n < 2 ^ 16
    → is_cancelled f stamp ≡ false
    → domain_length_read no_error (bytes16 n []) stamp f ≡ length_known n f
unfolding domain_length_read is_cancelled read_domain
domain_length_known n stamp f big small live =
    if_false _ _ _ live
    ∙ ap (λ m. read_domain m (length_stored n f)) (length_of_request n f.header_buf small)
    ∙ if_false (ltb n 2) _ (length_known n f) (ground arith)

take_request_known :
    (app : TcpApp) (layer : Option (List ℕ → Bool)) (id : ℕ) (name : List ℕ) (f : TcpFlow)
    → take_request app layer (id ∷ packet_code conn_pkt ∷ name) f
      ≡ offer_flow app layer name (record f { rx = record (f.rx) { recv_buf = name } })
unfolding take_request
take_request_known app layer id name f = refl

abbrev body_known : ℕ → List ℕ → TcpFlow → TcpFlow
body_known n b f = record (length_known n f) {
  rx = record (f.rx) { header_buf = fill (bytes16 n []) f.header_buf; recv_buf = b };
}

domain_known :
    (app : TcpApp) (layer : Option (List ℕ → Bool)) (body : List ℕ) (stamp : ℕ) (f : TcpFlow)
    → is_cancelled f stamp ≡ false
    → domain_read app layer no_error body stamp (length_known (length body) f)
      ≡ take_request app layer body (body_known (length body) body f)
unfolding domain_read is_cancelled
domain_known app layer body stamp f live =
    if_false _ _ _ live
    ∙ ap
        (λ b.
          if not (length body == length b)
          then tcp_close (body_known (length body) b f)
          else take_request app layer b (body_known (length body) b f))
        (fill-recreated body)
    ∙ if_false (not (length body == length body)) _ _ (ground arith)

-- The request that `connect` makes for a name shorter than 65,534 bytes, read in two parts by a flow
-- that waits for one and is not cancelled: the shared layer is asked for an acceptor of that very
-- name, and the flow is accepted if there is one and refused if not.
pub request_read :
    (app : TcpApp) (layer : Option (List ℕ → Bool)) (name : List ℕ) (stamp : ℕ) (caller f : TcpFlow)
    → length name < 65534
    → is_cancelled f stamp ≡ false
    → (let request = (connecting_to name caller).domain in
        domain_read app layer no_error
          (drop 2 request)
          stamp
          (domain_length_read no_error (take 2 request) stamp f)
        ≡ offer_flow app layer name (request_known name f))
unfolding connecting_to
request_read app layer name stamp caller f small live =
    let body = caller.id_for_lost_rate ∷ packet_code conn_pkt ∷ name in
    ap
      (λ n.
        domain_read app layer no_error body stamp
          (domain_length_read no_error (bytes16 n []) stamp f))
      (request_fits (length name) small)
    ∙ ap (domain_read app layer no_error body stamp)
        (domain_length_known (length body) stamp f (omega arith) (omega arith) live)
    ∙ domain_known app layer body stamp f live
    ∙ take_request_known app layer caller.id_for_lost_rate name _

-- A flow that accepts.
abbrev pub accepted : ConnTimer → TcpFlow → TcpFlow
accepted t f =
    put
      (start_write (bytes16 2 (f.id_for_lost_rate ∷ packet_code accept_pkt ∷ [])) false f.op_cancel)
      (record f {
        life = record (f.life) {
          state = st_connected;
          conn_timer = some (record { bound = t.bound; waiting = none });
        };
      })

accept_lem :
    (t : ConnTimer) (f : TcpFlow)
    → f.conn_timer ≡ some t
    → in_phase f.state st_closed ≡ false
    → tcp_accept no_error f ≡ accepted t f
unfolding tcp_accept accept_now cancel_conn_timer cancel_timer_at
accept_lem t f timer open_ =
    ap (λ (o : Option ConnTimer). accept_now no_error (cancel_timer_at false o f)) timer
    ∙ if_false (in_phase f.state st_closed) _ (accepted t f) open_

-- The reply of a flow that accepts, with a timer and not closed, is the four bytes that make the
-- flow that connects count as connected.
pub reply_accepted :
    (app : TcpApp) (stamp : ℕ) (t : ConnTimer) (callee caller : TcpFlow)
    → callee.conn_timer ≡ some t
    → in_phase callee.state st_closed ≡ false
    → is_over caller stamp ≡ false
    → (let reply = bytes16 2 (callee.id_for_lost_rate ∷ packet_code accept_pkt ∷ []) in
        ((tcp_accept no_error callee).trace
          ≡ start_write reply false callee.op_cancel ∷ callee.trace)
        × ((tcp_accept no_error callee).state ≡ st_connected)
        × (reply_read app no_error reply stamp caller
            ≡ now_connected app (record caller {
              rx = record (caller.rx) { header_buf = fill reply caller.header_buf };
            })))
unfolding reply_read is_acceptance is_over is_cancelled
reply_accepted app stamp t callee caller timer open_ live =
    let e = accept_lem t callee timer open_ in
    (ap (λ (f : TcpFlow). f.trace) e, ap (λ (f : TcpFlow). f.state) e, if_false _ _ _ live)
