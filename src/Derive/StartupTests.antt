-- ===== src/Derive/StartupTests.antt =====
-- The start of a parent with two children whose table privsep-derive/src/lib.rs has generated.
use privsep_rs.Prelude.{◌≡◌, refl, true, false, some, [], ◌∷◌, arith}
use privsep_rs.Process.Connect.{pairs, done, connect}
use privsep_rs.Process.Handshake.{wait_connections, results_of, introduce, handshake, connected}
use privsep_rs.Process.Startup.{IsRun}
use privsep_rs.Process.Samples.{children, answers, both-IsReady, system, introduction}
use privsep_rs.Derive.Startup.{handshake-generated}
use privsep_rs.Derive.GenerateTests.{casing, item, generated, derives, sample_row}

pairs-generated : pairs generated.child_peers ≡ (1, 2) ∷ []
unfolding pairs
pairs-generated = refl

generated-IsRun : IsRun 1 children answers generated.child_peers ((1, 2) ∷ [])
generated-IsRun = record {
  same = λ x y. rw pairs-generated refl;
  distinct = (refl, tt);
  ready = (both-IsReady, tt);
}

handshake-generated_example :
    ((connect 1 children answers ((1, 2) ∷ [])).1 ≡ done)
    × (handshake system
          (results_of system (introduction ∷ []) [])
          (wait_connections (sample_row true false))
          children
        ≡ connected (introduce system (introduction ∷ []) children))
unfolding connect
handshake-generated_example =
    handshake-generated casing some (λ m. m) item generated derives (λ m a b. refl) 1 children
      answers ((1, 2) ∷ []) 2 (sample_row true false) system (introduction ∷ []) [] children
      generated-IsRun (omega arith) refl refl refl
