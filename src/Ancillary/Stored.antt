-- ===== src/Ancillary/Stored.antt =====
-- A well-formed buffer of privsep/src/net/ancillary.rs, and one more message in it.
use privsep_rs.Prelude.{
  ℕ, ◌+◌, ◌^◌, ◌≤◌, ◌<◌, ◌≡◌, refl, ap, ◌∙◌, sym, subst, ◌-◌, true, false, Bool, List, [], ◌∷◌,
  ◌++◌, length, take, drop, length-append, length-drop, take-append_self, All, arith,
}
use privsep_rs.Memory.{Layout, IsLayout, bytes_of}
use privsep_rs.Ancillary.{SocketAncillary, new, store, add_to_ancillary_data}
use privsep_rs.Ancillary.Cmsg.{Libc, IsLibc}
use privsep_rs.Ancillary.Encoding.{
  Cmsg, Holds, IsCmsg, space, encode, encode_all, length-encode, encode_all-append,
}
use privsep_rs.Ancillary.Append.{
  add_to_ancillary_data-append, add_to_ancillary_data-full, used_length,
}
use privsep_rs.Ancillary.Write.{message_of}

-- A fresh buffer holds no message.
pub new-Holds : (c : Libc) (buffer : List ℕ) → Holds c (new buffer) []
new-Holds c buffer = record { fits = omega arith; used = refl }

-- A buffer that holds these messages, each with fields in range.
pub record IsWellFormed (c : Libc) (a : SocketAncillary) (ms : List Cmsg) : Type 0 where
  pub holds : Holds c a ms
  pub valid : All (IsCmsg c) ms
  pub small : length a.buffer < 2 ^ 64

module _ (c : Libc) (laws : IsLibc c) {T : Type 0} (l : Layout T) {IsRepr : T → Type 0}
    (layout : IsLayout l IsRepr) (source : List T) (level kind : ℕ) (a : SocketAncillary)
    (ms : List Cmsg) (holds : Holds c a ms) where
  abbrev message : Cmsg
  message = message_of l source level kind

  abbrev pub stored : SocketAncillary × Bool
  stored = store c a (add_to_ancillary_data c l a.buffer a.length source level kind)

  -- What the call stores, with room for the message.
  pub stored-Holds :
      All (IsCmsg c) ms
      → length a.buffer < 2 ^ 64
      → length (bytes_of l source) < 2 ^ 32
      → space c message + a.length ≤ length a.buffer
      → (stored.1 ≡ true)
        × Holds c stored.0 (ms ++ (message ∷ []))
        × (length stored.0.buffer ≡ length a.buffer)
  stored-Holds valid small few room = (
    ap (λ (r : Bool × List ℕ × ℕ). r.0) result,
    subst (λ (r : Bool × List ℕ × ℕ). Holds c (store c a r).0 (ms ++ (message ∷ []))) (sym result)
        (record { fits = omega (arith, size, behind); used = used }),
    ap (λ (r : Bool × List ℕ × ℕ). length r.1) result ∙ omega (arith, size, behind),
  )
    where
      end : ℕ
      end = space c message + a.length

      front : List ℕ
      front = encode_all c (ms ++ (message ∷ []))

      result :
          add_to_ancillary_data c l a.buffer a.length source level kind
          ≡ (true, front ++ drop end a.buffer, end)
      result =
          add_to_ancillary_data-append c laws l layout source level kind a ms holds valid small few
            room

      size : end ≡ length front
      size = omega (
        arith,
        ap length (encode_all-append c ms message),
        length-append (encode_all c ms) (encode c message),
        length-encode c laws message,
        used_length c laws l layout source level kind a ms holds,
      )

      behind :
          (length (front ++ drop end a.buffer) ≡ length front + (length a.buffer - end))
          × (end ≤ length a.buffer)
      behind =
          (omega (arith, length-append front (drop end a.buffer), length-drop end a.buffer), room)

      used : take end (front ++ drop end a.buffer) ≡ front
      used =
          ap (λ (k : ℕ). take k (front ++ drop end a.buffer)) size
          ∙ take-append_self front (drop end a.buffer)

  -- What the call stores with no room: what there was.
  pub stored-full :
      length a.buffer < space c message + a.length
      → stored ≡ (record a { truncated = false }, false)
  stored-full full =
      ap (store c a) (add_to_ancillary_data-full c laws l layout source level kind a ms holds full)
