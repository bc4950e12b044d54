-- ===== src/Process/Inbox.antt =====
-- What Parent::connect of privsep/src/process.rs sends to one child.
use privsep_rs.Prelude.{
  Bool-cases, inl, inr, ℕ, ◌^◌, ◌%◌, ◌<◌, ◌≡◌, refl, Bool, true, false, ◌||◌, some, List, [], ◌∷◌,
  All, ◌==◌, ==-refl, if◌then◌else◌, ok, arith,
}
use privsep_rs.Imsg.{Handler}
use privsep_rs.Process.{Peer}
use privsep_rs.Process.Sets.{contains, IsDistinct}
use privsep_rs.Process.Connect.{contains_pair, PairAnswer, Delivery, done, handler_of, connect}

-- The peers that a child's messages introduce.
abbrev pub inbox : ℕ → List Delivery → List ℕ
inbox k [] = []
inbox k (d ∷ ds) =
    let later = inbox k ds in if d.child == k then d.message.peer_id ∷ later else later

-- The other ends of a child's pairs.
abbrev pub partners : ℕ → List (ℕ × ℕ) → List ℕ
partners k [] = []
partners k ((a, b) ∷ ps) =
    let later = partners k ps in
    let second = if b == k then a ∷ later else later in if a == k then b ∷ second else second

pub contains-partners :
    (k p : ℕ) (order : List (ℕ × ℕ))
    → contains p (partners k order) ≡ (contains_pair k p order || contains_pair p k order)
contains-partners k p [] = refl
contains-partners k p ((a, b) ∷ ps) = ground (arith, contains-partners k p ps)

-- No pair twice.
abbrev pub IsDistinctPairs : List (ℕ × ℕ) → Type 0
IsDistinctPairs [] = Unit {0}
IsDistinctPairs ((a, b) ∷ ps) = (contains_pair a b ps ≡ false) × IsDistinctPairs ps

IsDistinct-if :
    (t : Bool) (x : ℕ) (xs : List ℕ)
    → (t ≡ true → contains x xs ≡ false)
    → IsDistinct xs
    → IsDistinct (if t then x ∷ xs else xs)
IsDistinct-if true x xs fresh distinct = (fresh refl, distinct)
IsDistinct-if false x xs fresh distinct = distinct

pub partners-IsDistinct :
    (k : ℕ) (order : List (ℕ × ℕ))
    → IsDistinctPairs order
    → ((x y : ℕ) → contains_pair x y order ≡ true → x < y)
    → IsDistinct (partners k order)
partners-IsDistinct k [] distinct sorted = tt
partners-IsDistinct k ((a, b) ∷ ps) (fresh, distinct) sorted =
    IsDistinct-if (a == k) b (if b == k then a ∷ partners k ps else partners k ps)
      (λ h. ground (arith, contains-partners k b ps, in_order, behind, fresh))
      (IsDistinct-if (b == k) a (partners k ps)
        (λ h. ground (arith, contains-partners k a ps, in_order, behind, fresh))
        (partners-IsDistinct k ps distinct (λ x y h. sorted x y (ground (arith, h)))))
  where
    in_order : a < b
    in_order = sorted a b (ground (arith, ==-refl a, ==-refl b))

    behind : contains_pair b a ps ≡ false
    behind = elim (Bool-cases (contains_pair b a ps)) [
      | inl h ↦ absurd (omega (arith, in_order, sorted b a (ground (arith, h))))
      | inr h ↦ h
    ]

module _ (pid : ℕ) (children : List Peer) (answers : ℕ → ℕ → PairAnswer) where
  -- Both ends of a pair are children with a handler, with ids of 32 bits, and no call for it fails.
  pub record IsReady (a b : ℕ) : Type 0 where
    pub left_fd : ℕ
    pub right_fd : ℕ
    pub handler_a : Handler
    pub handler_b : Handler
    pub sockets : (answers a b).sockets ≡ ok (left_fd, right_fd)
    pub left : (answers a b).left ≡ ok tt
    pub right : (answers a b).right ≡ ok tt
    pub has_a : handler_of children a ≡ some handler_a
    pub has_b : handler_of children b ≡ some handler_b
    pub a_fits : a < 2 ^ 32
    pub b_fits : b < 2 ^ 32

  pub connect-inbox :
      (k : ℕ) (order : List (ℕ × ℕ))
      → All (λ p. IsReady p.0 p.1) order
      → ((connect pid children answers order).1 ≡ done)
        × (inbox k (connect pid children answers order).0 ≡ partners k order)
  unfolding connect
  connect-inbox k [] ready = (refl, refl)
  connect-inbox k ((a, b) ∷ ps) (r, ready) =
      let (ended, rest) = connect-inbox k ps ready in
      rw (r.sockets, r.has_a, r.left, r.has_b, r.right)
        (ended, rw (fits b r.b_fits, fits a r.a_fits, rest) refl)
    where
      fits : (x : ℕ) → x < 2 ^ 32 → x % 2 ^ 32 ≡ x
      fits x h = omega arith
