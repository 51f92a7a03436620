-- ===== src/Urdp/Format.antt =====
-- p2engine/rdp/urdp_visitor.hpp: the layout of the headers, in network order, as the field macros
-- of p2engine/packet_format_def.hpp read and write it. A byte is a number below 256.
pub mod RoundTrip
use p2engine.Prelude.{
  List, Option, if◌then◌else◌, none, some, ℕ, ◌%◌, ◌*◌, ◌+◌, ◌/◌, ◌==◌, ◌^◌, ◌∷◌,
}
use p2engine.Urdp.Types.{
  Ctrl, Header, ack, connect, connect_ack, connect_ack_ack, fin, fin_ack, network_unreachable,
  payload, punch, rst, semireliable_data, unknown, unreliable_data,
}

-- A field of two, three or four bytes, most significant first (`read_int_ntoh`).
abbrev pub be16 : ℕ → ℕ → ℕ
be16 a b = a * 256 + b

abbrev pub be24 : ℕ → ℕ → ℕ → ℕ
be24 a b c = be16 a b * 256 + c

abbrev pub be32 : ℕ → ℕ → ℕ → ℕ → ℕ
be32 a b c d = be24 a b c * 256 + d

-- The bytes of a field (`write_int_hton`).
abbrev pub bytes16 : ℕ → List ℕ → List ℕ
bytes16 n rest = (n / 2 ^ 8 % 2 ^ 8) ∷ (n % 2 ^ 8) ∷ rest

abbrev pub bytes24 : ℕ → List ℕ → List ℕ
bytes24 n rest = (n / 2 ^ 16 % 2 ^ 8) ∷ bytes16 n rest

abbrev pub bytes32 : ℕ → List ℕ → List ℕ
bytes32 n rest = (n / 2 ^ 24 % 2 ^ 8) ∷ bytes24 n rest

-- The numbers of `urdp_packet_type`.
unfoldable pub code : Ctrl → ℕ
code network_unreachable = 0
code punch = 1
code connect = 2
code connect_ack = 3
code connect_ack_ack = 4
code payload = 5
code unreliable_data = 6
code semireliable_data = 7
code ack = 8
code rst = 9
code fin = 10
code fin_ack = 11
code (unknown n) = n

unfoldable pub ctrl_of : ℕ → Ctrl
ctrl_of n =
    if n == 0
    then network_unreachable
    else if n == 1
    then punch
    else if n == 2
    then connect
    else if n == 3
    then connect_ack
    else if n == 4
    then connect_ack_ack
    else if n == 5
    then payload
    else if n == 6
    then unreliable_data
    else if n == 7
    then semireliable_data
    else if n == 8
    then ack
    else if n == 9
    then rst
    else if n == 10
    then fin
    else if n == 11
    then fin_ack
    else unknown n

-- `urdp_packet_unreliable_format`, 12 bytes: its fields, and the bytes that follow. The four fields
-- that only the reliable format has are 0.
unfoldable pub parse_unreliable : List ℕ → Option (Header × List ℕ)
unfolding ctrl_of
parse_unreliable (c ∷ p0 ∷ p1 ∷ p2 ∷ l ∷ i ∷ s0 ∷ s1 ∷ b0 ∷ b1 ∷ w0 ∷ w1 ∷ rest) = some (
  record {
    control = ctrl_of c;
    peer_id = be24 p0 p1 p2;
    lostrate_recving = l;
    id_for_lost_detect = i;
    session_id = be16 s0 s1;
    bandwidth_recving = be16 b0 b1;
    window = be16 w0 w1;
    time_sending = 0;
    time_echo = 0;
    seqno = 0;
    ackno = 0;
  },
  rest,
)
parse_unreliable _ = none

-- The twelve further bytes of `urdp_packet_reliable_format`.
unfoldable pub parse_reliable_tail : Header → List ℕ → Option (Header × List ℕ)
parse_reliable_tail h (t0 ∷ t1 ∷ e0 ∷ e1 ∷ q0 ∷ q1 ∷ q2 ∷ q3 ∷ a0 ∷ a1 ∷ a2 ∷ a3 ∷ rest) = some (
  record h {
    time_sending = be16 t0 t1;
    time_echo = be16 e0 e1;
    seqno = be32 q0 q1 q2 q3;
    ackno = be32 a0 a1 a2 a3;
  },
  rest,
)
parse_reliable_tail h _ = none

-- A datagram, cut into a reliable header and its data; `none` for fewer than 24 bytes.
unfoldable pub parse_reliable : List ℕ → Option (Header × List ℕ)
unfolding parse_unreliable parse_reliable_tail
parse_reliable bytes = elim (parse_unreliable bytes) [
  | none ↦ none
  | some (h, rest) ↦ parse_reliable_tail h rest
]

-- What the setters write, followed by the data.
unfoldable pub print_unreliable : Header → List ℕ → List ℕ
unfolding code
print_unreliable h rest =
    code h.control
    ∷ bytes24 h.peer_id (
        h.lostrate_recving
        ∷ h.id_for_lost_detect
        ∷ bytes16 h.session_id (bytes16 h.bandwidth_recving (bytes16 h.window rest)))

unfoldable pub print_reliable : Header → List ℕ → List ℕ
unfolding print_unreliable
print_reliable h rest =
    print_unreliable h
      (bytes16 h.time_sending (bytes16 h.time_echo (bytes32 h.seqno (bytes32 h.ackno rest))))
