-- ===== src/Derive/Tests.antt =====
-- An enum with a parent and two children, the first of which asks for the second.
use privsep_rs.Prelude.{◌≡◌, ◌⊎◌, refl, true, false, ◌&&◌, ◌||◌, some, List, [], ◌∷◌, ok, err}
use privsep_rs.Process.{Str}
use privsep_rs.Process.Connect.{wants}
use privsep_rs.Derive.{
  Variant, idents, ConnectMap, unknown_process, list, ident, mem_str, has_key, collect_connect,
  parse_attribute_ident, resolve, child_peers,
}
use privsep_rs.Derive.Resolve.{
  is_connected, asked, all_known, resolve-is_connected, resolve-outcome,
}
use privsep_rs.Derive.Table.{wants-derive}

abbrev connect : Str
connect = 99 ∷ []

abbrev parent : Variant
parent = record { ident = 80 ∷ []; attrs = [] }

abbrev child_a : Variant
child_a = record {
  ident = 65 ∷ [];
  attrs = record { path = connect; meta = some (list (ident (66 ∷ []) ∷ [])) } ∷ [];
}

abbrev child_b : Variant
child_b = record { ident = 66 ∷ []; attrs = [] }

abbrev variants : List Variant
variants = parent ∷ child_a ∷ child_b ∷ []

abbrev before : ConnectMap
before = (80 ∷ [], []) ∷ (65 ∷ [], (66 ∷ []) ∷ []) ∷ (66 ∷ [], []) ∷ []

abbrev after : ConnectMap
after = (80 ∷ [], []) ∷ (65 ∷ [], (66 ∷ []) ∷ []) ∷ (66 ∷ [], (65 ∷ []) ∷ []) ∷ []

collected : collect_connect connect variants [] ≡ ok before
unfolding collect_connect parse_attribute_ident
collected = refl

resolved : resolve (idents variants) before before ≡ ok after
unfolding resolve
resolved = refl

wants-derive_run :
    wants (child_peers (λ s. s) after (idents variants) (idents variants)) 2 1
    ≡ wants (child_peers (λ s. s) after (idents variants) (idents variants)) 1 2
wants-derive_run =
    wants-derive (λ s. s) connect parent (child_a ∷ child_b ∷ []) before before after 2 1 collected
      (λ a b. refl) resolved

resolve-is_connected_run :
    (has_key after (66 ∷ []) ≡ has_key before (66 ∷ []))
    × (is_connected after (66 ∷ []) (65 ∷ []) ≡ (
        is_connected before (66 ∷ []) (65 ∷ [])
        || (has_key before (66 ∷ []) && asked before (65 ∷ []) (66 ∷ []))))
resolve-is_connected_run =
    resolve-is_connected (idents variants) before before after (66 ∷ []) (65 ∷ []) resolved

resolve-outcome_run :
    ((m' : ConnectMap) × (resolve (idents variants) before before ≡ ok m')
      × (all_known (idents variants) before ≡ true))
    ⊎ ((key : Str) × (entry : Str) × (resolve (idents variants) before before
          ≡ err (unknown_process entry))
        × (asked before key entry ≡ true)
        × (mem_str entry (idents variants) ≡ false))
resolve-outcome_run = resolve-outcome (idents variants) before before
