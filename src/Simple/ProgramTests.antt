-- ===== src/Simple/ProgramTests.antt =====
-- The enum of privsep/examples/simple.rs, derived with a conversion to lower case, and the start of its
-- children.
use privsep_rs.Prelude.{
  ℕ, ◌+◌, ◌≡◌, ◌≢◌, ◌⊎◌, refl, Bool, true, false, some, List, [], ◌∷◌, ◌++◌, map, ltb,
  if◌then◌else◌, ok, arith,
}
use privsep_rs.Ancillary.Linux.{linux, linux-IsLibc}
use privsep_rs.Imsg.{Handler, from_stream}
use privsep_rs.Process.{Str, Process, Peer}
use privsep_rs.Process.Parent.{parent_name}
use privsep_rs.Process.Connect.{pairs}
use privsep_rs.Process.Handshake.{start, results_of, connected}
use privsep_rs.Process.Startup.{IsRun}
use privsep_rs.Process.Samples.{children, answers, both-IsReady, system, introduction}
use privsep_rs.Derive.{
  collect_connect, parse_attribute_value, parse_attribute_ident, resolve, resolve_entries,
}
use privsep_rs.Derive.Generate.{
  Casing, Entry, Generated, quoted, main_suffix, id_suffix, configure, derive_privsep_enum,
}
use privsep_rs.Simple.{hello_word, child_word}
use privsep_rs.Stream.{SendEvent, ready, tried, accepted}
use privsep_rs.Imsg.Header.{IsMessage, header_length}
use privsep_rs.Imsg.Header
use privsep_rs.Imsg.Send.{send_message}
use privsep_rs.Imsg.Samples.{rights_room}
use privsep_rs.Simple.Select.{State}
use privsep_rs.Simple.Parent.{Host, parent_loop, send_all, parent_main}
use privsep_rs.Simple.Samples.{unit}
use privsep_rs.Simple.Child.{panicked, looped, child_main}
use privsep_rs.Simple.Echo.{packet, send_message-packet}
use privsep_rs.Simple.Started.{InLoop, parent_main-looped}
use privsep_rs.Simple.Connected.{child_main-start}
use privsep_rs.Simple.Program.{nobody_word, parent_ident, hello_ident, child_ident, privsep}

abbrev lower : Str → Str
lower text = map (λ x. if ltb x 97 then x + 32 else x) text

abbrev casing : Casing
casing = record { kebab = lower; snake = lower; upper_snake = λ s. s }

abbrev entry : ℕ → Str → Str → Bool → Bool → Entry Str
entry id name ident hello child = record {
  id = id;
  ident = ident;
  name = name;
  id_name = ident ++ id_suffix;
  main_path = name ++ main_suffix;
  options = record { disable_privdrop = false; username = nobody_word };
  connect =
      record { name = parent_name; connect = true }
      ∷ record { name = hello_word; connect = hello }
      ∷ record { name = child_word; connect = child }
      ∷ [];
}

abbrev generated : Generated Str
generated = quoted (
    entry 0 parent_name parent_ident false false
    ∷ entry 1 hello_word hello_ident false true
    ∷ entry 2 child_word child_ident true false
    ∷ [])

derives : derive_privsep_enum casing some (λ m. m) privsep ≡ ok generated
unfolding derive_privsep_enum collect_connect parse_attribute_value parse_attribute_ident resolve
    resolve_entries configure
derives = refl

pairs-privsep : pairs generated.child_peers ≡ (1, 2) ∷ []
unfolding pairs
pairs-privsep = refl

privsep-IsRun : IsRun 1 children answers generated.child_peers ((1, 2) ∷ [])
privsep-IsRun = record {
  same = λ x y. rw pairs-privsep refl;
  distinct = (refl, tt);
  ready = (both-IsReady, tt);
}

child_main-start_example :
    (peers : List Peer) × (start system
        (from_stream 3)
        1
        (entry 2 child_word child_ident true false).connect
        (results_of system (introduction ∷ []) [])
      ≡ connected peers)
    × ((child_main linux unit 42 (λ e. []) (ok tt) peers [] []).outcome ≢ panicked)
unfolding privsep_rs.Process.Connect.connect
child_main-start_example =
    child_main-start casing some (λ m. m) privsep generated derives (λ m a b. refl) 1 children
      answers ((1, 2) ∷ []) privsep-IsRun system (introduction ∷ []) [] (from_stream 3) 1
      (entry 2 child_word child_ident true false).connect linux unit 42 (λ e. []) (ok tt) [] [] refl
      refl refl refl

-- The socket takes the whole header.
abbrev whole : List SendEvent
whole = tried (accepted header_length) ∷ []

abbrev host : Host
host = record {
  logger = ok tt;
  sigchld = ok tt;
  listener = some 9;
  daemon = some (ok tt);
  answers = λ id. whole;
}

abbrev state : State
state = record { one = from_stream 11; two = from_stream 10 }

sends_whole :
    (h : Handler)
    → h.shutdown ≡ false
    → (send_message linux unit 42 h (Header.new 42 23) (some 9) tt whole).result ≡ ready (ok tt)
sends_whole h is_open =
    (send_message-packet linux linux-IsLibc unit refl refl (Header.new 42 23) valid (omega arith)
      refl h is_open 42 (some 9) (omega arith, rights_room)).0
  where
    valid : IsMessage (Header.new 42 23)
    valid = record {
      id_fits = omega arith;
      length_fits = omega arith;
      flags_fits = omega arith;
      peer_id_fits = omega arith;
      pid_fits = omega arith;
    }

parent_main-run :
    (parent_main linux unit 42 (λ e. []) false host children []).outcome
    ≡ looped (parent_loop linux unit 42 (some 9) [] state)
unfolding parent_main send_all
parent_main-run = rw (sends_whole (from_stream 10) refl, sends_whole (from_stream 11) refl) refl

parent_main-looped_example :
    (host.logger ≡ ok tt)
    × (host.sigchld ≡ ok tt)
    × ((false ≡ true) ⊎ (host.daemon ≡ some (ok tt)))
    × (l : InLoop linux unit 42 (some 9) children [] (parent_loop linux unit 42 (some 9) [] state))
    × ((parent_main linux unit 42 (λ e. []) false host children []).sent
        ≡ (l.state.two, packet linux 42 (some 9) (Header.new 42 23))
          ∷ (l.state.one, packet linux 42 (some 9) (Header.new 42 23))
          ∷ [])
parent_main-looped_example =
    parent_main-looped linux unit 42 refl (λ e. []) false host children []
      (parent_loop linux unit 42 (some 9) [] state) (omega arith, tt) (omega arith, tt)
      parent_main-run
