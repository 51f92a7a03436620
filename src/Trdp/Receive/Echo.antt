-- ===== src/Trdp/Receive/Echo.antt =====
-- Data of src/rdp/trdp_flow.cpp, from the packet that `__send` writes to its peer.
use p2engine.Prelude.{
  List, [], ap, arith, drop, false, if_true, length, ltb, some, suc, take, true, ℕ, ◌%◌, ◌++◌, ◌+◌,
  ◌<◌, ◌^◌, ◌∙◌, ◌∷◌, ◌≡◌,
}
use p2engine.Trdp.Flow.{TcpApp, TcpFlow, is_over, put}
use p2engine.Trdp.Receive.{
  after_packet, data_read, header_read, next_unless_blocked, process_bytes, take_data, take_packet,
}
use p2engine.Trdp.Receive.Packet.{packet_known, packet_read}
use p2engine.Trdp.Send.{packet_head}
use p2engine.Trdp.Types.{data_pkt, no_error, packet_type, tell_received}
use p2engine.Urdp.Format.{bytes16}

fits : (n : ℕ) → n < 65532 → (2 + n + 2) % 2 ^ 16 ≡ suc (suc (suc (suc n)))
fits n h = omega arith

take_data_known :
    (app : TcpApp) (f : TcpFlow)
    → 0 < length f.recv_buf
    → f.connection ≡ true
    → take_data app f ≡ (app.on_received f.recv_buf (put (tell_received f.recv_buf) f), true)
unfolding take_data
take_data_known app f some_bytes c =
    if_true (ltb 0 (length f.recv_buf)) _ (f, true) (ground arith) ∙ if_true _ _ _ c

-- The flow that a data packet reached, with the packet's number and type taken off.
abbrev pub data_known : ℕ → List ℕ → ℕ → TcpFlow → TcpFlow
data_known m bytes stamp f =
    packet_known (suc (suc (suc (suc (length bytes))))) (bytes16 m bytes) stamp f

process_data_packet :
    (app : TcpApp) (id now m : ℕ) (bytes : List ℕ) (stamp : ℕ) (f : TcpFlow)
    → f.connection ≡ true
    → process_bytes app
        (id ∷ 101 ∷ bytes16 m bytes)
        now
        stamp
        (packet_known (suc (suc (suc (suc (length bytes))))) (id ∷ 101 ∷ bytes16 m bytes) stamp f)
      ≡ (
        app.on_received
            (bytes16 m bytes)
            (put (tell_received (bytes16 m bytes)) (data_known m bytes stamp f)),
        true,
      )
unfolding process_bytes take_packet packet_type
process_data_packet app id now m bytes stamp f c =
    take_data_known app (data_known m bytes stamp f) (omega arith) c

-- What `__send` writes for a message shorter than 65,532 bytes, read by the peer's two reads: the
-- application gets the message type and the bytes of the message, and the next packet is read unless
-- the application blocks receiving in the call. The peer is not over, not blocked and has a connection.
pub receive_sent :
    (app : TcpApp) (now id m : ℕ) (bytes : List ℕ) (stamp : ℕ) (f : TcpFlow)
    → length bytes < 65532
    → is_over f stamp ≡ false
    → f.is_recv_blocked ≡ false
    → f.connection ≡ true
    → (let wire = packet_head id data_pkt (some m) (length bytes) ++ bytes in
        let message = bytes16 m bytes in
        data_read app now no_error
          (drop 2 wire)
          stamp
          (header_read app no_error (take 2 wire) stamp f)
        ≡ next_unless_blocked stamp
            (app.on_received message (put (tell_received message) (data_known m bytes stamp f))))
unfolding packet_head after_packet
receive_sent app now id m bytes stamp f small live open_ c =
    let body = id ∷ 101 ∷ bytes16 m bytes in
    ap
      (λ n. data_read app now no_error body stamp (header_read app no_error (bytes16 n []) stamp f))
      (fits (length bytes) small)
    ∙ packet_read app now body stamp f (omega arith) (omega arith) live open_
    ∙ ap (after_packet stamp) (process_data_packet app id now m bytes stamp f c)
