-- ===== src/Process/Tests.antt =====
-- A parent with two children in the functions of privsep/src/process.rs.
use privsep_rs.Prelude.{
  ℕ, ◌≡◌, refl, Bool, true, false, ◌&&◌, ◌||◌, none, some, List, [], ◌∷◌, ltb, ok, arith,
}
use privsep_rs.Imsg.{from_stream}
use privsep_rs.Imsg.Header
use privsep_rs.Process.{Process, Peer, unconnected}
use privsep_rs.Process.Sets.{contains, remove_all}
use privsep_rs.Process.Connect.{
  contains_pair, pairs, PairAnswer, done, connect, wants, contains_pair-pairs,
}
use privsep_rs.Process.Handshake.{
  System, wait_connections, Introduction, result_of, introduce, handshake, connected, waiting,
  panicked, handshake-connected, handshake-uninvited,
}
use privsep_rs.Process.Startup.{IsRun, end_of_file, handshake-connect, handshake_self}
use privsep_rs.Process.Inbox.{IsReady}

abbrev row : Bool → Bool → Bool → List Process
row p a b =
    record { name = 112 ∷ []; connect = p }
    ∷ record { name = 97 ∷ []; connect = a }
    ∷ record { name = 98 ∷ []; connect = b }
    ∷ []

-- Both children ask for each other.
abbrev table : List (List Process)
table = row true false false ∷ row true false true ∷ row true true false ∷ []

abbrev child : ℕ → Peer
child fd = record (unconnected 1 []) { handler = some (from_stream fd) }

abbrev children : List Peer
children = unconnected 1 [] ∷ child 10 ∷ child 11 ∷ []

abbrev answers : ℕ → ℕ → PairAnswer
answers a b = record { sockets = ok (20, 21); left = ok tt; right = ok tt }

abbrev system : System
system = record { is_open = λ fd. ok tt; from_raw_fd = λ fd. ok (from_stream fd) }

contains_pair-pairs_run :
    contains_pair 1 2 (pairs table) ≡ (ltb 1 2 && (wants table 1 2 || wants table 2 1))
contains_pair-pairs_run = contains_pair-pairs table 1 2

one_two-IsReady : IsReady 1 children answers 1 2
one_two-IsReady = record {
  left_fd = 20;
  right_fd = 21;
  handler_a = from_stream 10;
  handler_b = from_stream 11;
  sockets = refl;
  left = refl;
  right = refl;
  has_a = refl;
  has_b = refl;
  a_fits = omega arith;
  b_fits = omega arith;
}

pairs-table : pairs table ≡ (1, 2) ∷ []
unfolding pairs
pairs-table = refl

table-IsRun : IsRun 1 children answers table ((1, 2) ∷ [])
table-IsRun = record {
  same = λ x y. rw pairs-table refl;
  distinct = (refl, tt);
  ready = (one_two-IsReady, tt);
}

abbrev introduction : Introduction system
introduction = record {
  message = Header.connect 1 2;
  fd = 20;
  handler = from_stream 20;
  is_connect = refl;
  adopted = refl;
}

handshake-connect_run :
    ((connect 1 children answers ((1, 2) ∷ [])).1 ≡ done)
    × (handshake system
          (result_of system introduction ∷ [])
          (wait_connections (row true false true))
          children
        ≡ connected (introduce system (introduction ∷ []) children))
unfolding connect
handshake-connect_run =
    handshake-connect 1 children answers table ((1, 2) ∷ []) table-IsRun 1 (row true false true)
      (omega arith) refl symmetric system (introduction ∷ []) [] children refl refl
  where
    symmetric : (p : ℕ) → wants table 1 p ≡ wants table p 1
    symmetric p = ground arith

-- The first child asks for itself, too.
abbrev narcissist : List (List Process)
narcissist = row true false false ∷ row true true true ∷ row true true false ∷ []

pairs-narcissist : pairs narcissist ≡ (1, 2) ∷ []
unfolding pairs
pairs-narcissist = refl

narcissist-IsRun : IsRun 1 children answers narcissist ((1, 2) ∷ [])
narcissist-IsRun = record {
  same = λ x y. rw pairs-narcissist refl;
  distinct = (refl, tt);
  ready = (one_two-IsReady, tt);
}

handshake_self_example :
    (handshake system
        (result_of system introduction ∷ [])
        (wait_connections (row true true true))
        children
      ≡ waiting
          (remove_all (2 ∷ []) (wait_connections (row true true true)))
          (introduce system (introduction ∷ []) children))
    × (contains 1 (remove_all (2 ∷ []) (wait_connections (row true true true))) ≡ true)
    × (handshake system
          (result_of system introduction ∷ ok none ∷ [])
          (wait_connections (row true true true))
          children
        ≡ panicked)
unfolding connect
handshake_self_example =
    handshake_self 1 children answers narcissist ((1, 2) ∷ []) narcissist-IsRun 1
      (row true true true) (omega arith) refl symmetric system (introduction ∷ []) children
      (ok none) [] refl refl end_of_file
  where
    symmetric : (p : ℕ) → wants narcissist 1 p ≡ wants narcissist p 1
    symmetric p = ground arith

handshake-connected_run :
    handshake system (result_of system introduction ∷ []) (2 ∷ []) children
    ≡ connected (introduce system (introduction ∷ []) children)
handshake-connected_run =
    handshake-connected system (introduction ∷ []) [] (2 ∷ []) children (refl, tt) (λ x. refl)

handshake-uninvited_example :
    handshake system
      (result_of system introduction ∷ result_of system introduction ∷ [])
      (1 ∷ 2 ∷ [])
      children
    ≡ panicked
handshake-uninvited_example =
    handshake-uninvited system (introduction ∷ []) introduction [] (1 ∷ 2 ∷ []) children 1
      (refl, tt) (λ x h. ground (arith, h)) refl refl refl
