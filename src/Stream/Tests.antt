-- ===== src/Stream/Tests.antt =====
-- The two streams of privsep/src/net/stream.rs on a socket that is not ready at first.
use privsep_rs.Prelude.{◌≡◌, false, true, [], ◌∷◌}
use privsep_rs.Ancillary.{SocketAncillary, new}
use privsep_rs.Stream
use privsep_rs.Stream.{ready, received, answered, accepted, tried}
use privsep_rs.Stream.Std
use privsep_rs.Stream.Std.{
  busy_recv, busy_send, recv_vectored_with_ancillary-std, send_vectored_with_ancillary-std,
}

abbrev small : SocketAncillary
small = new (0 ∷ 0 ∷ [])

recv_vectored_with_ancillary-std_run :
    Stream.recv_vectored_with_ancillary
      (busy_recv 2 (answered (received (1 ∷ []) (9 ∷ []) true false) ∷ []))
      small
    ≡ (
      ready (Std.recv_vectored_with_ancillary (received (1 ∷ []) (9 ∷ []) true false) small).0,
      (Std.recv_vectored_with_ancillary (received (1 ∷ []) (9 ∷ []) true false) small).1,
      [],
    )
recv_vectored_with_ancillary-std_run =
    recv_vectored_with_ancillary-std 2 (received (1 ∷ []) (9 ∷ []) true false) [] small (λ e. cc)

send_vectored_with_ancillary-std_run :
    Stream.send_vectored_with_ancillary
      (busy_send 2 (tried (accepted 1) ∷ []))
      ((7 ∷ 8 ∷ []) ∷ [])
      small
    ≡ (
      ready (Std.send_vectored_with_ancillary (accepted 1) ((7 ∷ 8 ∷ []) ∷ []) small).0,
      (Std.send_vectored_with_ancillary (accepted 1) ((7 ∷ 8 ∷ []) ∷ []) small).2,
      [],
    )
send_vectored_with_ancillary-std_run =
    send_vectored_with_ancillary-std 2 (accepted 1) [] ((7 ∷ 8 ∷ []) ∷ []) small (λ e. cc)
