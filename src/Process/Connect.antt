-- ===== src/Process/Connect.antt =====
-- Parent::connect of privsep/src/process.rs.
use privsep_rs.Prelude.{
  ℕ, zero, suc, ◌≡◌, refl, ◌∙◌, Bool, false, not, ◌&&◌, ◌||◌, Option, none, some, List, [], ◌∷◌,
  ◌++◌, ltb, ◌==◌, if◌then◌else◌, Result, ok, err, arith, drop,
}
use privsep_rs.Stream.{IoError}
use privsep_rs.Imsg.{Handler}
use privsep_rs.Imsg.Header
use privsep_rs.Imsg.Header.{Message}
use privsep_rs.Process.{Process, Peer, enumerate}

-- The filter_map over one inner list.
abbrev pub row : ℕ → List (ℕ × Process) → List (ℕ × ℕ)
row a [] = []
row a ((b, inner) ∷ rest) =
    let later = row a rest in
    if not inner.connect || (a == b)
    then later
    else if ltb a b
    then (a, b) ∷ later
    else (b, a) ∷ later

-- The flat_map over the outer list.
abbrev pub rows : List (ℕ × List Process) → List (ℕ × ℕ)
rows [] = []
rows ((a, outer) ∷ rest) = row a (drop 1 (enumerate outer)) ++ rows rest

abbrev pub contains_pair : ℕ → ℕ → List (ℕ × ℕ) → Bool
contains_pair x y [] = false
contains_pair x y ((a, b) ∷ rest) = ((x == a) && (y == b)) || contains_pair x y rest

-- collect::<HashSet<_>>, in one of its orders
abbrev pub collect_set : List (ℕ × ℕ) → List (ℕ × ℕ)
collect_set [] = []
collect_set ((a, b) ∷ rest) =
    let later = collect_set rest in if contains_pair a b later then later else (a, b) ∷ later

-- The pairs of processes to connect.
unfoldable pub pairs : List (List Process) → List (ℕ × ℕ)
pairs processes = collect_set (rows (drop 1 (enumerate processes)))

-- What the system answers for one pair: Handler::socketpair, and the two sends.
pub record PairAnswer : Type 0 where
  pub sockets : Result IoError (ℕ × ℕ)
  pub left : Result IoError (Unit {0})
  pub right : Result IoError (Unit {0})

-- A message that was sent to a child, with its descriptor.
pub record Delivery : Type 0 where
  pub child : ℕ
  pub message : Message
  pub fd : ℕ

pub data Outcome : Type 0 where
  done : Outcome
  failed : IoError → Outcome
  panicked : Outcome

-- self[a]: the element, and its handler
abbrev pub handler_of : List Peer → ℕ → Option Handler
handler_of [] a = none
handler_of (p ∷ peers) zero = p.handler
handler_of (p ∷ peers) (suc a) = handler_of peers a

-- self[child].send_message_internal(..).await?; `rest` is what follows.
abbrev pub send_to :
    Option Handler
    → Result IoError (Unit {0})
    → Delivery
    → List Delivery × Outcome
    → List Delivery × Outcome
send_to none answer d rest = ([], panicked)
send_to (some h) (err kind) d rest = ([], failed kind)
send_to (some h) (ok _) d rest = (d ∷ rest.0, rest.1)

abbrev pub with_sockets :
    Result IoError (ℕ × ℕ) → (ℕ → ℕ → List Delivery × Outcome) → List Delivery × Outcome
with_sockets (err kind) rest = ([], failed kind)
with_sockets (ok (left, right)) rest = rest left right

-- The `for` loop over the pairs; `pid` is getpid().
unfoldable pub connect :
    ℕ → List Peer → (ℕ → ℕ → PairAnswer) → List (ℕ × ℕ) → List Delivery × Outcome
connect pid children answers [] = ([], done)
connect pid children answers ((a, b) ∷ rest) =
    let later = connect pid children answers rest in
    with_sockets (answers a b).sockets (λ left right.
      send_to (handler_of children a) (answers a b).left
        (record { child = a; message = Header.connect pid b; fd = left })
        (send_to (handler_of children b) (answers a b).right
          (record { child = b; message = Header.connect pid a; fd = right }) later))

-- A row asks for a connection to this process.
abbrev pub asks : ℕ → List (ℕ × Process) → Bool
asks y [] = false
asks y ((b, inner) ∷ rest) = ((y == b) && inner.connect) || asks y rest

abbrev pub table_asks : ℕ → ℕ → List (ℕ × List Process) → Bool
table_asks x y [] = false
table_asks x y ((a, outer) ∷ rest) =
    ((x == a) && asks y (drop 1 (enumerate outer))) || table_asks x y rest

-- Child `x` is configured to connect to child `y`.
abbrev pub wants : List (List Process) → ℕ → ℕ → Bool
wants processes x y = table_asks x y (drop 1 (enumerate processes))

contains_pair-append :
    (x y : ℕ) (ps qs : List (ℕ × ℕ))
    → contains_pair x y (ps ++ qs) ≡ (contains_pair x y ps || contains_pair x y qs)
contains_pair-append x y [] qs = refl
contains_pair-append x y ((a, b) ∷ ps) qs = ground (arith, contains_pair-append x y ps qs)

contains_pair-row :
    (x y a : ℕ) (bs : List (ℕ × Process))
    → contains_pair x y (row a bs)
      ≡ (ltb x y && (((x == a) && asks y bs) || ((y == a) && asks x bs)))
contains_pair-row x y a [] = ground arith
contains_pair-row x y a ((b, inner) ∷ bs) = ground (arith, contains_pair-row x y a bs)

contains_pair-rows :
    (x y : ℕ) (ts : List (ℕ × List Process))
    → contains_pair x y (rows ts) ≡ (ltb x y && (table_asks x y ts || table_asks y x ts))
contains_pair-rows x y [] = ground arith
contains_pair-rows x y ((a, outer) ∷ ts) =
    contains_pair-append x y (row a (drop 1 (enumerate outer))) (rows ts)
    ∙ ground (arith, contains_pair-row x y a (drop 1 (enumerate outer)), contains_pair-rows x y ts)

contains_pair-collect_set :
    (x y : ℕ) (ps : List (ℕ × ℕ)) → contains_pair x y (collect_set ps) ≡ contains_pair x y ps
contains_pair-collect_set x y [] = refl
contains_pair-collect_set x y ((a, b) ∷ ps) = ground (arith, contains_pair-collect_set x y ps)

-- The pairs are those of two different children, the lower one first, of which one at least is
-- configured to connect to the other.
pub contains_pair-pairs :
    (processes : List (List Process)) (x y : ℕ)
    → contains_pair x y (pairs processes)
      ≡ (ltb x y && (wants processes x y || wants processes y x))
unfolding pairs
contains_pair-pairs processes x y =
    contains_pair-collect_set x y (rows (drop 1 (enumerate processes)))
    ∙ contains_pair-rows x y (drop 1 (enumerate processes))
