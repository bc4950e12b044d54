-- ===== src/Ancillary/Loops.antt =====
-- The loops of privsep/src/net/ancillary.rs, on any buffer.
use privsep_rs.Prelude.{
  ℕ, zero, suc, ◌-◌, ◌≤◌, ◌<◌, ◌≡◌, ◌≢◌, refl, ap, ◌∙◌, inl, inr, Result, Option, none, some,
  Option-cases, List, length, length-drop, drop, arith,
}
use privsep_rs.Prelude.Iter.{Drains, collect-Drains}
use privsep_rs.Memory.{Layout}
use privsep_rs.Ancillary.{
  SocketAncillary, Messages, AncillaryData, AncillaryError, next_unit, units, messages, walk,
  last_header, header_after, yield_header, next_message, all_messages,
}
use privsep_rs.Ancillary.Walk.{walk_null, walk-same, walk-end, walk-step}
use privsep_rs.Ancillary.Cmsg.{Libc, IsLibc}

next_unit-shrinks :
    {T : Type 0} (l : Layout T)
    → 0 < l.size
    → (s : List ℕ) (t : T) (s' : List ℕ) → next_unit l s ≡ some (t, s')
    → length s' < length s
unfolding next_unit
next_unit-shrinks l some_size s t s' e =
    ground (arith, length-drop l.size s, ap (λ (r : List ℕ). length r) (rest e))
  where
    rest : next_unit l s ≡ some (t, s') → s' ≡ drop l.size s
    rest h = ground arith

-- The iterator of the units of a message ends after the listed values, for values of some size.
pub units-Drains :
    {T : Type 0} (l : Layout T)
    → 0 < l.size
    → (bytes : List ℕ) → Drains (next_unit l) bytes (units l bytes)
unfolding units
units-Drains l some_size bytes =
    collect-Drains (next_unit l) (λ s. length s) (next_unit-shrinks l some_size) (length bytes)
      bytes (omega arith)

module _ (c : Libc) where
  -- The `while` loop of `add_to_ancillary_data`, as the source's steps.
  pub data Walks (b : List ℕ) : Option ℕ → Option ℕ → Option ℕ → Type 0 where
    null : (previous : Option ℕ) → Walks b none previous previous
    same_again :
        {p : ℕ} (previous : Option ℕ)
        → c.cmsg_nxthdr b p ≡ some p
        → Walks b (some p) previous (some p)
    step :
        {p : ℕ} {cmsg result : Option ℕ} (previous : Option ℕ)
        → c.cmsg_nxthdr b p ≡ cmsg
        → cmsg ≢ some p
        → Walks b cmsg (some p) result
        → Walks b (some p) previous result

module _ (c : Libc) (laws : IsLibc c) where
  -- How much of the buffer is before the iterator.
  abbrev left : Messages → ℕ
  left m = elim m.current [ none ↦ suc (length m.buffer) | some p ↦ length m.buffer - p ]

  yield_header-left :
      (b : List ℕ) (current : Option ℕ) (found : Option ℕ) (r : Result AncillaryError AncillaryData)
      (m' : Messages)
      → header_after c b current ≡ found
      → yield_header c (record { buffer = b; current = current }) found ≡ some (r, m')
      → left m' < left (record { buffer = b; current = current })
  unfolding yield_header header_after
  yield_header-left b none none r m' h e = cc
  yield_header-left b (some p) none r m' h e = cc
  yield_header-left b none (some q) r m' h e = ground arith
  yield_header-left b (some p) (some q) r m' h e = ground (arith, laws.nxthdr_forward b p q h)

  next_message-left :
      (m : Messages) (r : Result AncillaryError AncillaryData) (m' : Messages)
      → next_message c m ≡ some (r, m')
      → left m' < left m
  unfolding next_message
  next_message-left m r m' e =
      yield_header-left m.buffer m.current (header_after c m.buffer m.current) r m' refl e

  -- The message iterator ends after the listed results, over libc's contract, which has
  -- CMSG_NXTHDR step forward or not at all; a result may be `fault`.
  pub all_messages-Drains :
      (a : SocketAncillary) → Drains (next_message c) (messages a) (all_messages c a)
  unfolding all_messages messages
  all_messages-Drains a =
      collect-Drains (next_message c) (λ m. left m) next_message-left
        (suc (length (messages a).buffer)) (messages a) (omega arith)

  -- One round of the loop, given the rounds behind it.
  walk_round :
      (fuel : ℕ) (b : List ℕ) (p : ℕ) (previous : Option ℕ)
      → ((q : ℕ)
          → p < q
          → q < length b
          → Walks c b (some q) (some p) (walk c b fuel (some q) (some p)))
      → Walks c b (some p) previous (walk c b (suc fuel) (some p) previous)
  walk_round fuel b p previous later = elim (Option-cases (c.cmsg_nxthdr b p)) [
    | inl e ↦ rw (walk-end c laws b p fuel previous e) (step previous e (λ x. cc) (null (some p)))
    | inr (q, e) ↦ elim (laws.nxthdr_forward b p q e) [
      | inl same ↦
          let again = e ∙ ap some same in
          rw (walk-same c laws b p fuel previous again) (same_again previous again)
      | inr (lt, inside) ↦
          rw (walk-step c laws b p q fuel previous e lt)
            (step previous e (λ x. ground arith) (later q lt inside))
    ]
  ]

  walk-Walks :
      (fuel : ℕ) (b : List ℕ) (p : ℕ) (previous : Option ℕ)
      → length b - p ≤ fuel
      → Walks c b (some p) previous (walk c b (suc fuel) (some p) previous)
  walk-Walks zero b p previous h =
      walk_round zero b p previous (λ q lt inside. absurd (omega arith))
  walk-Walks (suc fuel) b p previous h =
      walk_round (suc fuel) b p previous (λ q lt inside. walk-Walks fuel b q (some p) (omega arith))

  -- On any buffer the loop ends, with the header that the model computes.
  pub last_header-Walks :
      (b : List ℕ) → Walks c b (c.cmsg_firsthdr b) (c.cmsg_firsthdr b) (last_header c b)
  unfolding last_header
  last_header-Walks b = elim (Option-cases (c.cmsg_firsthdr b)) [
    | inl e ↦ rw e (rw (walk_null c laws b (suc (length b)) none) (null none))
    | inr (q, e) ↦ rw e (walk-Walks (length b) b q (some q) (omega arith))
  ]
