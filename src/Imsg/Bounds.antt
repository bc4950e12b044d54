-- ===== src/Imsg/Bounds.antt =====
-- The sizes of what Handler::send_message of privsep/src/imsg.rs puts on the socket.
use privsep_rs.Prelude.{
  ℕ, ◌≤◌, false, ap, sym, subst, ◌∙◌, inl, inr, Option, List, [], ◌∷◌, length, length-take, All,
  arith,
}
use privsep_rs.Ancillary.{SocketAncillary}
use privsep_rs.Ancillary.Cmsg.{Libc}
use privsep_rs.Stream.{
  would_block, accepted, send_failed, SendEvent, unwritable, tried, Packet, gather,
  send_vectored_with_ancillary_to, send_vectored_with_ancillary,
}
use privsep_rs.Imsg.{Serde, Handler, buffer_length}
use privsep_rs.Imsg.Header.{Message, header_length, as_bytes}
use privsep_rs.Imsg.Send.{Sent, iovs, send_message}
use privsep_rs.Imsg.Framing.{length-frame}
use privsep_rs.Imsg.Sending.{gather-iovs, stamped, send_message-refused, send_message-write}
use privsep_rs.Imsg.Writes.{send_cases}

-- One packet at most, of that many bytes at most.
pub record IsSmall (limit : ℕ) (packets : List Packet) : Type 0 where
  pub few : length packets ≤ 1
  pub short : All (λ p. length p.bytes ≤ limit) packets

send_vectored-IsSmall :
    (limit : ℕ) (events : List SendEvent) (bufs : List (List ℕ)) (a : SocketAncillary)
    → length (gather bufs) ≤ limit
    → IsSmall limit (send_vectored_with_ancillary events bufs a).1
unfolding send_vectored_with_ancillary send_vectored_with_ancillary_to
send_vectored-IsSmall limit [] bufs a h = record { few = omega arith; short = tt }
send_vectored-IsSmall limit (unwritable kind ∷ events) bufs a h = record {
  few = omega arith;
  short = tt;
}
send_vectored-IsSmall limit (tried (accepted k) ∷ events) bufs a h = record {
  few = omega arith;
  short = (omega (arith, length-take k (gather bufs), h), tt);
}
send_vectored-IsSmall limit (tried (send_failed would_block) ∷ events) bufs a h =
    send_vectored-IsSmall limit events bufs (record a { truncated = false }) h
send_vectored-IsSmall limit (tried (send_failed _) ∷ events) bufs a h = record {
  few = omega arith;
  short = tt;
}

module _ (c : Libc) {T : Type 0} (serde : Serde T) (pid : ℕ) (h : Handler) (m : Message)
    (fd : Option ℕ) (payload : T) (events : List SendEvent) where
  -- However a send of a message ends whose length is that of a header at least: it puts one packet on the
  -- socket at most, which fits in the other end's read buffer.
  pub send_message-IsSmall :
      header_length ≤ m.length
      → IsSmall buffer_length (send_message c serde pid h m fd payload events).packets
  send_message-IsSmall long = elim (send_cases c serde pid h m fd payload events) [
    | inl (kind, r) ↦
        subst (λ (s : Sent). IsSmall buffer_length s.packets)
          (sym (send_message-refused c serde pid h m fd payload events r))
          (record { few = omega arith; short = tt })
    | inr (bytes, a, p) ↦
        let bufs = iovs (as_bytes c.endian (stamped pid m bytes)) bytes in
        let size =
          ap length (gather-iovs (as_bytes c.endian (stamped pid m bytes)) bytes)
          ∙ length-frame c (stamped pid m bytes) bytes in
        subst (λ (s : Sent). IsSmall buffer_length s.packets)
          (sym (
            send_message-write c serde pid h m fd payload events bytes a p.unreserved p.is_open
              p.serialized p.fits p.attached))
          (send_vectored-IsSmall buffer_length events bufs a (omega (arith, size, long, p.fits)))
  ]
