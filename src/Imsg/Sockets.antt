-- ===== src/Imsg/Sockets.antt =====
-- The sockets of a Handler of privsep/src/imsg.rs: how they are made, handed over and closed.
use privsep_rs.Prelude.{
  ℕ, ◌≡◌, ◌≢◌, refl, inl, inr, ap, sym, ◌∙◌, true, none, some, Result, ok, err,
}
use privsep_rs.Imsg.{Handler, from_stream}
use privsep_rs.Imsg
use privsep_rs.Fd.Ownership.{same_or_not}
use privsep_rs.Fd.{Kernel, IsKernel}

module _ (k : Kernel) where
  abbrev pub handlers : Result ℕ (ℕ × ℕ) → Result ℕ (Handler × Handler)
  handlers (err errno) = err errno
  handlers (ok (a, b)) = ok (from_stream a, from_stream b)

  -- Handler::pair
  abbrev pub pair : k.State → Result ℕ (Handler × Handler) × k.State
  pair s = (handlers (k.socketpair s).0, (k.socketpair s).1)

  abbrev pub descriptors : Result ℕ (Handler × Handler) → Result ℕ (ℕ × ℕ)
  descriptors (err errno) = err errno
  descriptors (ok (a, b)) = ok (a.socket, b.socket)

  -- Handler::socketpair: both handlers are forgotten, so nothing is closed.
  unfoldable pub socketpair : k.State → Result ℕ (ℕ × ℕ) × k.State
  socketpair s = (descriptors (pair s).0, (pair s).1)

  -- UnixStream::from_raw_fd; `register` is the answer of the runtime, on whose error the stream is
  -- dropped.
  abbrev pub adopted : Result ℕ (Unit {0}) → ℕ → k.State → Result ℕ Handler × k.State
  adopted (ok _) fd s = (ok (from_stream fd), s)
  adopted (err errno) fd s = (err errno, (k.close fd s).1)

  -- Handler::from_raw_fd
  unfoldable pub from_raw_fd : Result ℕ (Unit {0}) → ℕ → k.State → Result ℕ Handler × k.State
  from_raw_fd register fd s = adopted register fd s

  -- The drop of a handler closes its stream.
  abbrev pub drop_handler : Handler → k.State → k.State
  drop_handler h s = (k.close h.socket s).1

  -- Handler::shutdown
  unfoldable pub shutdown_in : Handler → k.State → Handler × k.State
  unfolding Imsg.shutdown
  shutdown_in h s = ((Imsg.shutdown h).0, (k.close (Imsg.shutdown h).1 s).1)

  socketpair-answer :
      (a b : ℕ) (r : Result ℕ (ℕ × ℕ) × k.State) (t : k.State)
      → ◌≡◌ {A = Result ℕ (ℕ × ℕ) × k.State} (descriptors (handlers r.0), r.1) (ok (a, b), t)
      → r ≡ (ok (a, b), t)
  socketpair-answer a b (err errno, u) t e = cc
  socketpair-answer a b (ok (x, y), u) t e = e

  module _ (null : ℕ) (laws : IsKernel k null) where
    -- For a kernel that keeps its laws: when a handler was shut down and its descriptor's number is then
    -- given to a duplicate of an open descriptor, the duplicate is open, and the drop of the
    -- handler, which is still marked as shut down, closes it.
    pub shutdown-drop_handler :
        (h : Handler) (fd file : ℕ) (s t : k.State)
        → k.file_of (shutdown_in h s).1 fd ≡ some file
        → k.dup fd (shutdown_in h s).1 ≡ (ok h.socket, t)
        → ((shutdown_in h s).0.shutdown ≡ true)
          × (k.file_of (shutdown_in h s).1 h.socket ≡ none)
          × (k.file_of t h.socket ≡ some file)
          × (k.file_of (drop_handler (shutdown_in h s).0 t) h.socket ≡ none)
    unfolding shutdown_in Imsg.shutdown
    shutdown-drop_handler h fd file s t e done = (
      refl,
      laws.close_one h.socket s,
      (laws.dup_ok fd h.socket file _ t done e).is_open,
      laws.close_one h.socket t,
    )

    -- For a kernel that keeps its laws: the descriptors of a new socket pair are both open until a
    -- handler that was made from the first one is dropped, which closes that one and leaves the
    -- second one open and all others as they were before.
    pub socketpair-from_raw_fd :
        (a b : ℕ) (s t : k.State)
        → socketpair s ≡ (ok (a, b), t)
        → (h : Handler) × (from_raw_fd (ok tt) a t ≡ (ok h, t))
          × (k.file_of t a ≢ none)
          × (k.file_of (drop_handler h t) a ≡ none)
          × (k.file_of (drop_handler h t) b ≢ none)
          × ((x : ℕ) → x ≢ b → k.file_of (drop_handler h t) x ≡ k.file_of s x)
    unfolding socketpair from_raw_fd
    socketpair-from_raw_fd a b s t done =
        let p = laws.socketpair_ok a b s t (socketpair-answer a b (k.socketpair s) t done) in
        (
          from_stream a,
          refl,
          λ e. cc (e, p.first_open.1),
          laws.close_one a t,
          λ e. cc (e, p.second_open.1, laws.close_others a b t (λ same. p.apart (sym same))),
          λ x not_second. elim (same_or_not x a) [
            | inl same ↦
                ap (k.file_of (k.close a t).1) same
                ∙ laws.close_one a t
                ∙ sym p.first_free
                ∙ ap (k.file_of s) (sym same)
            | inr other ↦ laws.close_others a x t other ∙ p.others x other not_second
          ],
        )
