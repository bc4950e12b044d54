-- ===== src/Derive/Table.antt =====
-- The array of connections that privsep-derive/src/lib.rs passes to Parent::connect and Child::new.
use privsep_rs.Prelude.{
  ℕ, suc, ◌≤◌, ◌≡◌, refl, ap, sym, subst, ◌∙◌, Bool, true, false, ◌&&◌, ◌||◌, List, [], ◌∷◌, ◌==◌,
  ok, Bool-cases, inl, inr, arith,
}
use privsep_rs.Process.{Str, same_str, enumerate_from}
use privsep_rs.Process.Connect.{asks, table_asks, wants}
use privsep_rs.Derive.{
  mem_str, ConnectMap, get, idents, has_key, resolve, map_entries, child_peers, Variant, insert,
  collect_connect, parse_attribute_ident,
}
use privsep_rs.Derive.Resolve.{
  is_connected, asked, same_str_refl, same_str_eq, same_str_comm, bind_ok, resolve-is_connected,
}

-- The name at this index passes the test; the first name has index `n`.
abbrev pub any_at : ℕ → ℕ → List Str → (Str → Bool) → Bool
any_at p n [] f = false
any_at p n (c ∷ cs) f = ((p == n) && f c) || any_at p (suc n) cs f

any_at-false : (p n : ℕ) (cs : List Str) → any_at p n cs (λ c. false) ≡ false
any_at-false p n [] = refl
any_at-false p n (c ∷ cs) = ground (arith, any_at-false p (suc n) cs)

any_at-or :
    (p n : ℕ) (t : Bool) (cs : List Str) (f g : Str → Bool)
    → any_at p n cs (λ c. (t && f c) || g c) ≡ ((t && any_at p n cs f) || any_at p n cs g)
any_at-or p n t [] f g = ground arith
any_at-or p n t (c ∷ cs) f g = ground (arith, any_at-or p (suc n) t cs f g)

any_at-cong :
    (p n : ℕ) (cs : List Str) (f g : Str → Bool)
    → ((c : Str) → mem_str c cs ≡ true → f c ≡ g c)
    → any_at p n cs f ≡ any_at p n cs g
any_at-cong p n [] f g same = refl
any_at-cong p n (c ∷ cs) f g same =
    rw
      (
        same c (rw (same_str_refl c) refl),
        any_at-cong p (suc n) cs f g (λ x h. same x (ground (arith, h))),
      )
      refl

any_at-swap :
    (k n p o : ℕ) (xs ys : List Str) (g : Str → Str → Bool)
    → any_at k n xs (λ x. any_at p o ys (g x)) ≡ any_at p o ys (λ y. any_at k n xs (λ x. g x y))
any_at-swap k n p o [] ys g = sym (any_at-false p o ys)
any_at-swap k n p o (x ∷ xs) ys g =
    ap (λ (t : Bool). ((k == n) && any_at p o ys (g x)) || t) (any_at-swap k (suc n) p o xs ys g)
    ∙ sym (any_at-or p o (k == n) ys (g x) (λ y. any_at k (suc n) xs (λ z. g z y)))

asks-map_entries :
    (kebab : Str → Str) (connect : List Str) (p n : ℕ) (cs : List Str)
    → 1 ≤ n
    → asks p (enumerate_from n (map_entries kebab connect (enumerate_from n cs)))
      ≡ any_at p n cs (λ c. mem_str c connect)
asks-map_entries kebab connect p n [] above = refl
asks-map_entries kebab connect p n (c ∷ cs) above =
    ground (arith, asks-map_entries kebab connect p (suc n) cs (omega arith))

module _ (kebab : Str → Str) (m : ConnectMap) (first : Str) (cs : List Str) where
  table_asks-child_peers :
      (k p n : ℕ) (rest : List Str)
      → table_asks k p (enumerate_from n (child_peers kebab m (first ∷ cs) rest))
        ≡ any_at k n rest (λ a. any_at p 1 cs (λ b. is_connected m a b))
  unfolding child_peers
  table_asks-child_peers k p n [] = refl
  table_asks-child_peers k p n (c ∷ rest) =
      rw
        (
          asks-map_entries kebab (get m c) p 1 cs (omega arith),
          table_asks-child_peers k p (suc n) rest,
        )
        refl

  -- The array asks for the connections of the map, but for those of the first process.
  pub wants-child_peers :
      (k p : ℕ)
      → wants (child_peers kebab m (first ∷ cs) (first ∷ cs)) k p
        ≡ any_at k 1 cs (λ a. any_at p 1 cs (λ b. is_connected m a b))
  unfolding child_peers
  wants-child_peers k p = table_asks-child_peers k p 1 cs

wants-symmetric :
    (kebab : Str → Str) (first : Str) (cs : List Str) (temp m m' : ConnectMap) (k p : ℕ)
    → ((a b : Str) → asked temp a b ≡ is_connected m a b)
    → ((a : Str) → mem_str a cs ≡ true → has_key m a ≡ true)
    → resolve (first ∷ cs) temp m ≡ ok m'
    → wants (child_peers kebab m' (first ∷ cs) (first ∷ cs)) k p
      ≡ wants (child_peers kebab m' (first ∷ cs) (first ∷ cs)) p k
wants-symmetric kebab first cs temp m m' k p copied keys e =
    wants-child_peers kebab m' first cs k p
    ∙ any_at-cong k 1 cs (λ a. any_at p 1 cs (λ b. is_connected m' a b))
        (λ a. any_at p 1 cs (λ b. is_connected m' b a))
        (λ a ha.
          any_at-cong p 1 cs (λ b. is_connected m' a b) (λ b. is_connected m' b a)
            (λ b hb. both a b ha hb))
    ∙ any_at-swap k 1 p 1 cs cs (λ a b. is_connected m' b a)
    ∙ sym (wants-child_peers kebab m' first cs p k)
  where
    both :
        (a b : Str)
        → mem_str a cs ≡ true
        → mem_str b cs ≡ true
        → is_connected m' a b ≡ is_connected m' b a
    both a b ha hb =
        (resolve-is_connected (first ∷ cs) temp m m' a b e).1
        ∙ ground (arith, keys a ha, keys b hb, copied a b, copied b a)
        ∙ sym (resolve-is_connected (first ∷ cs) temp m m' b a e).1

has_key-insert :
    (key : Str) (value : List Str) (m : ConnectMap) (a : Str)
    → has_key (insert key value m) a ≡ (same_str key a || has_key m a)
has_key-insert key value [] a = refl
has_key-insert key value ((k, v) ∷ m) a = elim (Bool-cases (same_str k key)) [
  | inl e ↦ rw (e, same_str_eq k key e) ground arith
  | inr ne ↦ rw ne (ground (arith, has_key-insert key value m a))
]

collect_connect-has_key :
    (connect : Str) (variants : List Variant) (m m' : ConnectMap) (a : Str)
    → collect_connect connect variants m ≡ ok m'
    → has_key m' a ≡ (has_key m a || mem_str a (idents variants))
unfolding collect_connect
collect_connect-has_key connect [] m m' a e =
    let same : m ≡ m' = cc e in ap (λ (x : ConnectMap). has_key x a) (sym same) ∙ ground arith
collect_connect-has_key connect (v ∷ variants) m m' a e =
    let (entries, _, later) =
      bind_ok (parse_attribute_ident v.attrs connect)
        (λ es. collect_connect connect variants (insert v.ident es m)) m' e in
    collect_connect-has_key connect variants (insert v.ident entries m) m' a later
    ∙ ground (arith, has_key-insert v.ident entries m a, same_str_comm a v.ident)

-- No key twice.
abbrev IsKeyed : ConnectMap → Type 0
IsKeyed [] = Unit {0}
IsKeyed ((k, v) ∷ m) = (has_key m k ≡ false) × IsKeyed m

insert-IsKeyed :
    (key : Str) (value : List Str) (m : ConnectMap) → IsKeyed m → IsKeyed (insert key value m)
insert-IsKeyed key value [] keyed = (refl, tt)
insert-IsKeyed key value ((k, v) ∷ m) keyed = elim (Bool-cases (same_str k key)) [
  | inl e ↦ rw e keyed
  | inr ne ↦ rw ne (
    ground (arith, ne, keyed.0, has_key-insert key value m k, same_str_comm key k),
    insert-IsKeyed key value m keyed.1,
  )
]

collect_connect-IsKeyed :
    (connect : Str) (variants : List Variant) (m m' : ConnectMap)
    → IsKeyed m
    → collect_connect connect variants m ≡ ok m'
    → IsKeyed m'
unfolding collect_connect
collect_connect-IsKeyed connect [] m m' keyed e =
    let same : m ≡ m' = cc e in subst (λ (x : ConnectMap). IsKeyed x) same keyed
collect_connect-IsKeyed connect (v ∷ variants) m m' keyed e =
    let (entries, _, later) =
      bind_ok (parse_attribute_ident v.attrs connect)
        (λ es. collect_connect connect variants (insert v.ident es m)) m' e in
    collect_connect-IsKeyed connect variants (insert v.ident entries m) m'
      (insert-IsKeyed v.ident entries m keyed) later

asked-has_key : (m : ConnectMap) (a b : Str) → has_key m a ≡ false → asked m a b ≡ false
asked-has_key [] a b h = refl
asked-has_key ((k, v) ∷ m) a b h = ground (arith, h, asked-has_key m a b)

-- The loop over the entries of a map sees what a lookup sees.
asked-IsKeyed : (m : ConnectMap) (a b : Str) → IsKeyed m → asked m a b ≡ is_connected m a b
asked-IsKeyed [] a b keyed = refl
asked-IsKeyed ((k, v) ∷ m) a b keyed = elim (Bool-cases (same_str k a)) [
  | inl e ↦
      let none_left =
        asked-has_key m a b
          (subst (λ (x : Str). has_key m x ≡ false) (same_str_eq k a e) keyed.0) in
      rw (e, none_left) ground arith
  | inr ne ↦ rw ne (asked-IsKeyed m a b keyed.1)
]

-- The array that the macro makes of the variants is symmetric: when the attributes of all variants are
-- read into a map, and the resolution goes through a copy of that map, which has the same entries in
-- whatever order, and ends with a map, then a child is told to connect to another one just if that one is told to connect to it.
pub wants-derive :
    (kebab : Str → Str) (connect : Str) (first : Variant) (variants : List Variant)
    (temp m m' : ConnectMap) (k p : ℕ)
    → collect_connect connect (first ∷ variants) [] ≡ ok m
    → ((a b : Str) → asked temp a b ≡ asked m a b)
    → resolve (idents (first ∷ variants)) temp m ≡ ok m'
    → wants (child_peers kebab m' (idents (first ∷ variants)) (idents (first ∷ variants))) k p
      ≡ wants (child_peers kebab m' (idents (first ∷ variants)) (idents (first ∷ variants))) p k
wants-derive kebab connect first variants temp m m' k p collected copied resolved =
    wants-symmetric kebab first.ident (idents variants) temp m m' k p
      (λ a b.
        copied a b
        ∙ asked-IsKeyed m a b
            (collect_connect-IsKeyed connect (first ∷ variants) [] m tt collected))
      (λ a h.
        collect_connect-has_key connect (first ∷ variants) [] m a collected ∙ rw h ground arith)
      resolved
