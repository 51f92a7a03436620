-- ===== src/Urdp/Format/RoundTrip.antt =====
-- Printing and parsing the headers of p2engine/rdp/urdp_visitor.hpp.
use p2engine.Prelude.{List, arith, some, ℕ, ◌%◌, ◌/◌, ◌<◌, ◌^◌, ◌≡◌}
use p2engine.Urdp.Format.{be16, be24, be32, code, ctrl_of, parse_reliable, print_reliable}
use p2engine.Urdp.Types.{Header}

-- The values that the fields of a header can hold, and a control byte that the code knows.
pub record Fits (h : Header) : Type 0 where
  pub known : ctrl_of (code h.control) ≡ h.control
  pub peer : h.peer_id < 2 ^ 24
  pub session : h.session_id < 2 ^ 16
  pub bandwidth : h.bandwidth_recving < 2 ^ 16
  pub win : h.window < 2 ^ 16
  pub sending : h.time_sending < 2 ^ 16
  pub echo : h.time_echo < 2 ^ 16
  pub seq : h.seqno < 2 ^ 32
  pub acked : h.ackno < 2 ^ 32

be16-bytes : (n : ℕ) → n < 2 ^ 16 → be16 (n / 2 ^ 8 % 2 ^ 8) (n % 2 ^ 8) ≡ n
be16-bytes n h = omega arith

be24-bytes : (n : ℕ) → n < 2 ^ 24 → be24 (n / 2 ^ 16 % 2 ^ 8) (n / 2 ^ 8 % 2 ^ 8) (n % 2 ^ 8) ≡ n
be24-bytes n h = omega arith

be32-bytes :
    (n : ℕ)
    → n < 2 ^ 32
    → be32 (n / 2 ^ 24 % 2 ^ 8) (n / 2 ^ 16 % 2 ^ 8) (n / 2 ^ 8 % 2 ^ 8) (n % 2 ^ 8) ≡ n
be32-bytes n h = omega arith

-- A reliable header whose fields fit, printed before any data, is parsed back together with that
-- data.
pub parse-print_reliable :
    (h : Header) (rest : List ℕ) → Fits h → parse_reliable (print_reliable h rest) ≡ some (h, rest)
unfolding parse_reliable print_reliable
parse-print_reliable h rest v = ground (
  arith,
  be24-bytes h.peer_id,
  be16-bytes h.session_id,
  be16-bytes h.bandwidth_recving,
  be16-bytes h.window,
  be16-bytes h.time_sending,
  be16-bytes h.time_echo,
  be32-bytes h.seqno,
  be32-bytes h.ackno,
)
