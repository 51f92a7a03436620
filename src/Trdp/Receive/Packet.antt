-- ===== src/Trdp/Receive/Packet.antt =====
-- A packet of src/rdp/trdp_flow.cpp, from the wire to the application.
use p2engine.Prelude.{
  List, [], ap, append-nil, arith, drop_all, false, if_false, length, refl, suc, zero, ℕ, ◌++◌, ◌<◌,
  ◌==◌, ◌^◌, ◌∙◌, ◌≡◌,
}
use p2engine.Trdp.Flow.{TcpApp, TcpFlow, is_cancelled, is_over, put}
use p2engine.Trdp.Receive.{
  after_packet, data_read, fill, have_length, header_read, length_field, next_unless_blocked,
  process_bytes, read_body, recreated, stop_reading, tcp_process_data,
}
use p2engine.Trdp.Types.{no_error, start_read_data}
use p2engine.Urdp.Format.{bytes16}

pub length-recreated : (n : ℕ) → length (recreated n) ≡ n
length-recreated zero = refl
length-recreated (suc n) = omega (arith, length-recreated n)

-- A read that fills a whole buffer.
pub fill-recreated : (bytes : List ℕ) → fill bytes (recreated (length bytes)) ≡ bytes
fill-recreated bytes =
    ap (λ rest. bytes ++ rest)
      (drop_all (length bytes) (recreated (length bytes))
        (omega (arith, length-recreated (length bytes))))
    ∙ append-nil bytes

-- The flow in the middle of a packet of n bytes.
abbrev pub header_known : ℕ → ℕ → TcpFlow → TcpFlow
header_known n stamp f = put (start_read_data n stamp) (record f {
  rx = record (f.rx) { header_buf = fill (bytes16 n []) f.header_buf; recv_buf = recreated n };
})

-- And with the packet read.
abbrev pub packet_known : ℕ → List ℕ → ℕ → TcpFlow → TcpFlow
packet_known n body stamp f = put (start_read_data n stamp) (record f {
  rx = record (f.rx) {
    header_buf = fill (bytes16 n []) f.header_buf;
    recv_buf = body;
    receiving = false;
  };
})

abbrev header_stored : ℕ → TcpFlow → TcpFlow
header_stored n f = record f {
  rx = record (f.rx) { header_buf = fill (bytes16 n []) f.header_buf };
}

length_of_header :
    (n : ℕ) (rest : List ℕ) → n < 2 ^ 16 → length_field (fill (bytes16 n []) rest) ≡ n
unfolding length_field
length_of_header n rest h = omega arith

have_length_known :
    (n stamp : ℕ) (f : TcpFlow) → 0 < n → have_length n stamp f ≡ read_body n stamp f
unfolding have_length
have_length_known n stamp f h =
    if_false (n == 0) (next_unless_blocked stamp (stop_reading f)) _ (ground arith)

header_read_known :
    (app : TcpApp) (n stamp : ℕ) (f : TcpFlow)
    → 0 < n
    → n < 2 ^ 16
    → is_over f stamp ≡ false
    → header_read app no_error (bytes16 n []) stamp f ≡ header_known n stamp f
unfolding header_read read_body is_over is_cancelled
header_read_known app n stamp f some_bytes small live =
    if_false _ _ _ live
    ∙ ap (λ m. have_length m stamp (header_stored n f)) (length_of_header n f.header_buf small)
    ∙ have_length_known n stamp (header_stored n f) some_bytes

data_read_known :
    (app : TcpApp) (now : ℕ) (body : List ℕ) (stamp : ℕ) (f : TcpFlow)
    → is_over f stamp ≡ false
    → f.is_recv_blocked ≡ false
    → data_read app now no_error body stamp (header_known (length body) stamp f)
      ≡ after_packet stamp
          (process_bytes app body now stamp (packet_known (length body) body stamp f))
unfolding data_read tcp_process_data stop_reading is_over is_cancelled
data_read_known app now body stamp f live open_ =
    if_false _ _ _ live
    ∙ if_false _ _ _ open_
    ∙ ap (after_packet stamp) (if_false _ _ _ live)
    ∙ ap
        (λ (b : List ℕ).
          after_packet stamp (process_bytes app b now stamp (packet_known (length body) b stamp f)))
        (fill-recreated body)

-- A packet of the length that its header says, read in two parts by a flow that is not over and not
-- blocked, is given to `__process_data` as it is.
pub packet_read :
    (app : TcpApp) (now : ℕ) (body : List ℕ) (stamp : ℕ) (f : TcpFlow)
    → 0 < length body
    → length body < 2 ^ 16
    → is_over f stamp ≡ false
    → f.is_recv_blocked ≡ false
    → data_read app now no_error body stamp
        (header_read app no_error (bytes16 (length body) []) stamp f)
      ≡ after_packet stamp
          (process_bytes app body now stamp (packet_known (length body) body stamp f))
unfolding data_read tcp_process_data stop_reading
packet_read app now body stamp f some_bytes small live open_ =
    ap (data_read app now no_error body stamp)
      (header_read_known app (length body) stamp f some_bytes small live)
    ∙ data_read_known app now body stamp f live open_
