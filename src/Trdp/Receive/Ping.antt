-- ===== src/Trdp/Receive/Ping.antt =====
-- Pings and their answers in src/rdp/trdp_flow.cpp, from one flow to the other and back.
use p2engine.Prelude.{
  Bool-cases, List, [], ap, ap₂, arith, drop, false, if_false, if_true, inl, inr, is_empty, none,
  not, take, true, ℕ, ◌%◌, ◌&&◌, ◌*◌, ◌++◌, ◌+◌, ◌/◌, ◌<◌, ◌^◌, ◌||◌, ◌∙◌, ◌∷◌, ◌≡◌,
}
use p2engine.Trdp.Flow.{TcpApp, TcpFlow, is_over, put}
use p2engine.Trdp.Receive.{
  after_packet, answer_ping, data_read, fill, header_read, next_unless_blocked, process_bytes,
  read_next, take_packet, take_pong, time_field,
}
use p2engine.Trdp.Receive.Packet.{packet_known, packet_read}
use p2engine.Trdp.Rtt.{update_rtt}
use p2engine.Trdp.Send.{bytes64, packet_head, tcp_ping, tcp_send, write_packet}
use p2engine.Trdp.Types.{
  PacketType, SendElement, SysError, in_phase, no_error, packet_code, packet_type, ping_pkt,
  pong_pkt, st_connected, start_read_data, start_read_header, start_write,
}
use p2engine.Urdp.Format.{be32, bytes16}
use p2engine.Urdp.Types.{u8_mod}

be32-bytes32 :
    (n : ℕ)
    → be32 (n / 2 ^ 24 % 2 ^ 8) (n / 2 ^ 16 % 2 ^ 8) (n / 2 ^ 8 % 2 ^ 8) (n % 2 ^ 8) ≡ n % 2 ^ 32
be32-bytes32 n = omega arith

halves : (t : ℕ) → t < 2 ^ 64 → t / 2 ^ 32 % 2 ^ 32 % 2 ^ 32 * 2 ^ 32 + t % 2 ^ 32 % 2 ^ 32 ≡ t
halves t h = omega arith

pub time_field-bytes64 : (t : ℕ) → t < 2 ^ 64 → time_field (bytes64 t) ≡ t
unfolding time_field
time_field-bytes64 t h =
    ap₂ (λ a b. a * 2 ^ 32 + b) (be32-bytes32 (t / 2 ^ 32 % 2 ^ 32)) (be32-bytes32 (t % 2 ^ 32))
    ∙ halves t h

-- A packet with a time, as `__send` writes it.
abbrev pub time_packet : ℕ → PacketType → ℕ → List ℕ
time_packet id type t = packet_head id type none 8 ++ bytes64 t

-- What the two reads make of the bytes of a packet.
abbrev pub two_reads : TcpApp → ℕ → List ℕ → ℕ → TcpFlow → TcpFlow
two_reads app now wire stamp f =
    data_read app now no_error (drop 2 wire) stamp (header_read app no_error (take 2 wire) stamp f)

-- The flow with a packet read, of which the number and the type are taken off.
abbrev data_waiting : List ℕ → ℕ → TcpFlow → TcpFlow
data_waiting bytes stamp f = put (start_read_data 10 stamp) (record f {
  rx = record (f.rx) {
    header_buf = fill (bytes16 10 []) f.header_buf;
    recv_buf = bytes;
    receiving = false;
  };
})

read_time_packet :
    (app : TcpApp) (now id : ℕ) (type : PacketType) (t stamp : ℕ) (f : TcpFlow)
    → is_over f stamp ≡ false
    → f.is_recv_blocked ≡ false
    → (let body = id ∷ packet_code type ∷ bytes64 t in
        two_reads app now (time_packet id type t) stamp f
        ≡ after_packet stamp (process_bytes app body now stamp (packet_known 10 body stamp f)))
unfolding packet_head
read_time_packet app now id type t stamp f live open_ =
    packet_read app now (id ∷ packet_code type ∷ bytes64 t) stamp f (omega arith) (omega arith) live
      open_

send_idle :
    (now : ℕ) (bytes : List ℕ) (type : PacketType) (f : TcpFlow)
    → f.state ≡ st_connected
    → f.sending ≡ false
    → f.send_bufs ≡ []
    → tcp_send now bytes type false none false f ≡ write_packet bytes type false none f
unfolding tcp_send
send_idle now bytes type f up idle none_ =
    if_false _ _ _ (ap (λ s. not (in_phase s st_connected)) up)
    ∙ if_false _ _ _
        (ap₂ (λ (es : List SendElement) busy. not (is_empty es) && true || busy) none_ idle)

ping_written :
    (t : ℕ) (f : TcpFlow)
    → f.state ≡ st_connected
    → f.socket_open ≡ true
    → f.sending ≡ false
    → f.send_bufs ≡ []
    → (tcp_ping t f).0 ≡ write_packet (bytes64 t) ping_pkt false none f
unfolding tcp_ping
ping_written t f up socket idle none_ =
    ap (λ (r : TcpFlow × SysError). r.0)
      (if_false _ _ _ (ap (λ s. not (in_phase s st_connected)) up) ∙ if_true _ _ _ socket)
    ∙ send_idle t (bytes64 t) ping_pkt f up idle none_

ping_answered :
    (app : TcpApp) (now id t stamp : ℕ) (f : TcpFlow)
    → is_over f stamp ≡ false
    → f.is_recv_blocked ≡ false
    → f.state ≡ st_connected
    → f.sending ≡ false
    → f.send_bufs ≡ []
    → (two_reads app now (time_packet id ping_pkt t) stamp f).trace
      ≡ start_read_header stamp
        ∷ start_write (time_packet ((f.id_for_lost_rate + 1) % u8_mod) pong_pkt t) false f.op_stamp
        ∷ start_read_data 10 stamp
        ∷ f.trace
unfolding process_bytes take_packet packet_type answer_ping after_packet next_unless_blocked
    write_packet read_next
ping_answered app now id t stamp f live open_ up idle none_ =
    ap (λ (g : TcpFlow). g.trace) (read_time_packet app now id ping_pkt t stamp f live open_)
    ∙ ap (λ g. (next_unless_blocked stamp g).trace)
        (send_idle now (bytes64 t) pong_pkt (data_waiting (bytes64 t) stamp f) up idle none_)
    ∙ ap (λ (g : TcpFlow). g.trace) (if_false _ _ _ open_)

-- The flow with a pong in its estimate.
abbrev pong_done : ℕ → ℕ → ℕ → TcpFlow → TcpFlow
pong_done now t stamp f =
    let g = data_waiting [] stamp f in
    record g { times = update_rtt now (time_field (bytes64 t)) f.times }

next-times : (stamp : ℕ) (f : TcpFlow) → (next_unless_blocked stamp f).times ≡ f.times
unfolding next_unless_blocked read_next
next-times stamp f = elim (Bool-cases f.is_recv_blocked) [
  | inl blocked ↦ ap (λ (g : TcpFlow). g.times) (if_true _ f (read_next stamp f) blocked)
  | inr open_ ↦ ap (λ (g : TcpFlow). g.times) (if_false _ f (read_next stamp f) open_)
]

pong_taken :
    (app : TcpApp) (now id t stamp : ℕ) (f : TcpFlow)
    → t < 2 ^ 64
    → is_over f stamp ≡ false
    → f.is_recv_blocked ≡ false
    → (two_reads app now (time_packet id pong_pkt t) stamp f).times ≡ update_rtt now t f.times
unfolding process_bytes take_packet packet_type take_pong after_packet
pong_taken app now id t stamp f small live open_ =
    ap (λ (g : TcpFlow). g.times) (read_time_packet app now id pong_pkt t stamp f live open_)
    ∙ next-times stamp (pong_done now t stamp f)
    ∙ ap (λ echo. update_rtt now echo f.times) (time_field-bytes64 t small)

-- A ping and its answer, over the wire. A connected flow a that has an open socket, nothing waiting and
-- no write under way writes, at a time t below 2 ^ 64, a ping with t in it. A peer p that is connected,
-- not over, not blocked, and as idle as a, answers the bytes of that ping with a pong with t in it, and
-- reads on. And a flow b, not over and not blocked, that reads the bytes of that pong puts the time
-- since t into its round trip estimate.
pub ping_measures :
    (app : TcpApp) (t now later stamp stamp' : ℕ) (a p b : TcpFlow)
    → t < 2 ^ 64
    → a.state ≡ st_connected
    → a.socket_open ≡ true
    → a.sending ≡ false
    → a.send_bufs ≡ []
    → is_over p stamp ≡ false
    → p.is_recv_blocked ≡ false
    → p.state ≡ st_connected
    → p.sending ≡ false
    → p.send_bufs ≡ []
    → is_over b stamp' ≡ false
    → b.is_recv_blocked ≡ false
    → (let ping = time_packet ((a.id_for_lost_rate + 1) % u8_mod) ping_pkt t in
        let pong = time_packet ((p.id_for_lost_rate + 1) % u8_mod) pong_pkt t in
        ((tcp_ping t a).0.trace ≡ start_write ping false a.op_stamp ∷ a.trace)
        × ((two_reads app now ping stamp p).trace
            ≡ start_read_header stamp
              ∷ start_write pong false p.op_stamp
              ∷ start_read_data 10 stamp
              ∷ p.trace)
        × ((two_reads app later pong stamp' b).times ≡ update_rtt later t b.times))
unfolding write_packet
ping_measures app t now later stamp stamp' a p b small a_up socket a_idle a_none p_live p_open p_up
      p_idle p_none b_live b_open =
    (
      ap (λ (g : TcpFlow). g.trace) (ping_written t a a_up socket a_idle a_none),
      ping_answered app now ((a.id_for_lost_rate + 1) % u8_mod) t stamp p p_live p_open p_up p_idle
          p_none,
      pong_taken app later ((p.id_for_lost_rate + 1) % u8_mod) t stamp' b small b_live b_open,
    )
