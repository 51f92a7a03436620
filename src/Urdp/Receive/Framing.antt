-- ===== src/Urdp/Receive/Framing.antt =====
-- Messages in frames, as `__recv` of src/rdp/urdp_flow.cpp reads them.
use p2engine.Prelude.{
  Bool-cases, List, [], ap, arith, drop, drop-append, false, inl, inr, leb, length, min, pos, refl,
  some, suc, take, take-append, true, ℕ, ◌%◌, ◌++◌, ◌+◌, ◌-◌, ◌/◌, ◌<◌, ◌==◌, ◌^◌, ◌∙◌, ◌≡◌, ◌≤◌,
}
use p2engine.Urdp.Flow.{Flow, sub32}
use p2engine.Urdp.Format.{be16, bytes16}
use p2engine.Urdp.Output.Frame.{Kept, kept-attempt_send}
use p2engine.Urdp.Reassembly.{message_len, read_segments}
use p2engine.Urdp.Reassembly.Reading.{AllFilled, message_len-stored, read_segments_lem, stored}
use p2engine.Urdp.Receive.{can_let_transport_read, open_window, received, recv, recv_message}
use p2engine.Urdp.Types.{established, immediate_ack, recv_buf_size, u32_mod}
use p2engine.Wrap.{wrap_sub}

-- `open_window` leaves what is stored alone.
pub open_window-stored :
    (now : ℕ) (f : Flow)
    → ((open_window now f).rlist ≡ f.rlist)
      × ((open_window now f).rlen ≡ f.rlen)
      × ((open_window now f).conn ≡ f.conn)
      × ((open_window now f).fault ≡ f.fault)
      × ((open_window now f).unreliable_rlist ≡ f.unreliable_rlist)
unfolding open_window
open_window-stored now f =
    elim (Bool-cases (
      leb (min (recv_buf_size / 2) f.mss)
        ((recv_buf_size + u32_mod + u32_mod - f.rlen - f.rcv_wnd) % u32_mod))) [
          | inr e ↦ rw (e, open_window) (refl, refl, refl, refl, refl)
          | inl e ↦ elim (Bool-cases (f.rcv_wnd == 0)) [
            | inr open_now ↦ rw (e, open_now, open_window) (refl, refl, refl, refl, refl)
            | inl shut ↦
                let same = kept-attempt_send immediate_ack now (record f {
                  rcv = record (f.rcv) { rcv_wnd = (recv_buf_size + u32_mod - f.rlen) % u32_mod };
                }) in
                rw (e, shut, open_window)
                  (
                    ap (λ (k : Kept). k.rlist) same,
                    ap (λ (k : Kept). k.rlen) same,
                    ap (λ (k : Kept). k.conn) same,
                    ap (λ (k : Kept). k.fault) same,
                    ap (λ (k : Kept). k.messages) same,
                  )
          ]
        ]

-- The frame that `__send` puts before a message, and the message.
abbrev pub frame : ℕ → List ℕ → List ℕ
frame msg_type body = bytes16 (length body) (bytes16 msg_type body)

-- The length that can be read is that of the frame, if all of it is there.
pub can_let_transport_read-frame :
    (f : Flow) (msg_type : ℕ) (body rest : List ℕ)
    → f.state ≡ established
    → f.unreliable_rlist ≡ []
    → AllFilled f.rlist
    → length body < 2 ^ 16
    → stored f.rlist ≡ frame msg_type body ++ rest
    → length body + 4 ≤ f.rlen
    → can_let_transport_read f ≡ pos (length body + 4)
unfolding can_let_transport_read
can_let_transport_read-frame f msg_type body rest is none_else filled small e all =
    let found = message_len-stored f.rlist _ _ _ filled e in
    let len : be16 (length body / 2 ^ 8 % 2 ^ 8) (length body % 2 ^ 8) ≡ length body =
      omega arith in
    let found' : message_len f.rlist ≡ some (length body) = found ∙ ap some len in
    rw (is, none_else, found', can_let_transport_read) (ground arith)

-- The bytes of a frame, taken from the front of what is stored.
take-frame :
    (msg_type : ℕ) (body rest : List ℕ)
    → (take (length body + 4) (frame msg_type body ++ rest) ≡ frame msg_type body)
      × (drop (length body + 4) (frame msg_type body ++ rest) ≡ rest)
take-frame msg_type body rest =
    let four : length body + 4 ≡ suc (suc (suc (suc (length body)))) = omega arith in
    rw four (
      ap (λ l. bytes16 (length body) (bytes16 msg_type l)) (take-append body rest),
      drop-append body rest,
    )

recv_reads :
    (now : ℕ) (f : Flow) (n : ℕ)
    → f.state ≡ established
    → f.socket ≡ true
    → f.unreliable_rlist ≡ []
    → can_let_transport_read f ≡ pos n
    → 0 < n
    → recv now f ≡ recv_message n now f
unfolding recv
recv_reads now f n is held none_else found some_bytes =
    let more_than : (n == 0) ≡ false = ground arith in ground (arith, more_than)

-- What reading a message does, given what reading the segments gives.
recv_message_lem :
    (now : ℕ) (f : Flow) (n : ℕ) (bytes rest : List ℕ)
    → (read_segments n f.rlist).0 ≡ bytes
    → stored (read_segments n f.rlist).1 ≡ rest
    → n ≤ f.rlen
    → f.rlen < 2 ^ 32
    → length bytes ≡ n
    → let (result, g) = recv_message n now f in
      (result ≡ received (drop 2 bytes)) × (stored g.rlist ≡ rest) × (g.rlen + n ≡ f.rlen)
unfolding recv_message wrap_sub
recv_message_lem now f n bytes rest e k fits bounded whole =
    let g : Flow = record f {
      rcv = record (f.rcv) {
        rlist = (read_segments n f.rlist).1;
        rlen = sub32 f.rlen (length (read_segments n f.rlist).0);
      };
    } in
    let same = open_window-stored now g in
    (
      ap (λ l. received (drop 2 l)) e,
      ap stored same.0 ∙ k,
      omega (arith, same.1, ap length e, whole),
    )

-- `__recv`, on an established flow whose stored bytes begin with a framed message, all of it in
-- order: it returns the type and the bytes of the message, leaves exactly the bytes behind the
-- message stored, and takes the frame's length off `m_rlen`, in whatever segments the bytes lie.
-- No unreliable packet waits, which would come first.
pub recv-frame :
    (now : ℕ) (f : Flow) (msg_type : ℕ) (body rest : List ℕ)
    → f.state ≡ established
    → f.socket ≡ true
    → f.unreliable_rlist ≡ []
    → AllFilled f.rlist
    → length body < 2 ^ 16
    → stored f.rlist ≡ frame msg_type body ++ rest
    → length body + 4 ≤ f.rlen
    → f.rlen < 2 ^ 32
    → let (result, g) = recv now f in
      (result ≡ received (bytes16 msg_type body))
      × (stored g.rlist ≡ rest)
      × (g.rlen + (length body + 4) ≡ f.rlen)
recv-frame now f msg_type body rest is held none_else filled small e all bounded =
    let found = can_let_transport_read-frame f msg_type body rest is none_else filled small e all in
    rw (recv_reads now f (length body + 4) is held none_else found (omega arith)) (
      recv_message_lem now f (length body + 4) (frame msg_type body) rest
        ((read_segments_lem (length body + 4) f.rlist).0 ∙ ap (take (length body + 4)) e ∙ cut.0)
        ((read_segments_lem (length body + 4) f.rlist).1 ∙ ap (drop (length body + 4)) e ∙ cut.1)
        (omega arith) bounded (omega arith))
  where
    cut :
        (take (length body + 4) (frame msg_type body ++ rest) ≡ frame msg_type body)
        × (drop (length body + 4) (frame msg_type body ++ rest) ≡ rest)
    cut = take-frame msg_type body rest
