-- ===== src/Stream/Events.antt =====
-- What the retrying read of privsep/src/net/stream.rs takes from the events of a socket.
use privsep_rs.Prelude.{
  ℕ, ◌<◌, ◌≡◌, ◌⊎◌, inl, inr, refl, Bool, List, [], ◌∷◌, ◌++◌, length, All, Result, ok, arith,
}
use privsep_rs.Ancillary.{SocketAncillary}
use privsep_rs.Stream.{
  IoError, would_block, pending, ready, recv_failed, received, RecvEvent, unreadable, answered,
  recv_vectored_with_ancillary_from, recv_vectored_with_ancillary,
}

-- The data bytes of the events.
abbrev pub stream : List RecvEvent → List ℕ
stream [] = []
stream (answered (received bytes control ctrunc trunc) ∷ events) = bytes ++ stream events
stream (answered (recv_failed kind) ∷ events) = stream events
stream (unreadable kind ∷ events) = stream events

-- The peer is there and no call fails: data, or nothing yet.
abbrev pub IsLive : RecvEvent → Type 0
IsLive (answered (received (b ∷ bytes) control ctrunc trunc)) = Unit {0}
IsLive (answered (recv_failed would_block)) = Unit {0}
IsLive _ = ⊥

-- What a received event leaves in an ancillary buffer.
abbrev pub after : List ℕ → Bool → SocketAncillary → SocketAncillary
after control ctrunc a = (recv_vectored_with_ancillary_from (received [] control ctrunc ctrunc) a).1

-- A read takes an event at least, if it does not wait.
pub recv-shortens :
    (events : List RecvEvent) (a a' : SocketAncillary) (r : Result IoError (List ℕ))
    (rest : List RecvEvent)
    → recv_vectored_with_ancillary events a ≡ (ready r, a', rest)
    → length rest < length events
unfolding recv_vectored_with_ancillary
recv-shortens [] a a' r rest e = cc
recv-shortens (unreadable kind ∷ events) a a' r rest e = ground arith
recv-shortens (answered (received bytes control ctrunc trunc) ∷ events) a a' r rest e = ground arith
recv-shortens (answered (recv_failed would_block) ∷ events) a a' r rest e =
    omega (arith, recv-shortens events a a' r rest e)
recv-shortens (answered (recv_failed _) ∷ events) a a' r rest e = ground arith

-- While the peer lives, a read returns the next bytes of the stream, or waits where there are none.
pub recv-IsLive :
    (events : List RecvEvent) (a : SocketAncillary)
    → All IsLive events
    → ((recv_vectored_with_ancillary events a ≡ (pending, a, [])) × (stream events ≡ []))
      ⊎ ((b : ℕ) × (bytes : List ℕ) × (a' : SocketAncillary) × (rest : List RecvEvent)
          × (recv_vectored_with_ancillary events a ≡ (ready (ok (b ∷ bytes)), a', rest))
          × (stream events ≡ (b ∷ bytes) ++ stream rest)
          × All IsLive rest)
unfolding recv_vectored_with_ancillary
recv-IsLive [] a live = inl (refl, refl)
recv-IsLive (unreadable kind ∷ events) a live = absurd live.0
recv-IsLive (answered (received [] control ctrunc trunc) ∷ events) a live = absurd live.0
recv-IsLive (answered (received (b ∷ bytes) control ctrunc trunc) ∷ events) a live =
    inr (b, bytes, _, events, refl, refl, live.1)
recv-IsLive (answered (recv_failed would_block) ∷ events) a live = recv-IsLive events a live.1
recv-IsLive (answered (recv_failed _) ∷ events) a live = absurd live.0
