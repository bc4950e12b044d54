-- ===== src/Process/Samples.antt =====
-- A parent with the handlers of two children, whose calls in Parent::connect of privsep/src/process.rs
-- succeed, and what the second child is sent.
use privsep_rs.Prelude.{ℕ, refl, some, List, [], ◌∷◌, ok, arith}
use privsep_rs.Imsg.{from_stream}
use privsep_rs.Imsg.Header
use privsep_rs.Process.{Peer, unconnected}
use privsep_rs.Process.Connect.{PairAnswer}
use privsep_rs.Process.Handshake.{System, Introduction}
use privsep_rs.Process.Inbox.{IsReady}

abbrev pub child : ℕ → Peer
child fd = record (unconnected 1 []) { handler = some (from_stream fd) }

abbrev pub children : List Peer
children = unconnected 1 [] ∷ child 10 ∷ child 11 ∷ []

abbrev pub answers : ℕ → ℕ → PairAnswer
answers a b = record { sockets = ok (20, 21); left = ok tt; right = ok tt }

abbrev pub system : System
system = record { is_open = λ fd. ok tt; from_raw_fd = λ fd. ok (from_stream fd) }

pub both-IsReady : IsReady 1 children answers 1 2
both-IsReady = record {
  left_fd = 20;
  right_fd = 21;
  handler_a = from_stream 10;
  handler_b = from_stream 11;
  sockets = refl;
  left = refl;
  right = refl;
  has_a = refl;
  has_b = refl;
  a_fits = omega arith;
  b_fits = omega arith;
}

-- The second child is introduced to the first one.
abbrev pub introduction : Introduction system
introduction = record {
  message = Header.connect 1 1;
  fd = 21;
  handler = from_stream 21;
  is_connect = refl;
  adopted = refl;
}
