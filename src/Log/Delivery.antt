-- ===== src/Log/Delivery.antt =====
-- The async logger of log/src/lib.rs refines a drain that logs at once.
use privsep_rs.Prelude.{
  list_laws, ℕ, zero, suc, ◌≡◌, refl, ap, sym, subst, ◌∙◌, Bool, true, false, List, [], ◌∷◌, ◌++◌,
  append_assoc, append-nil, length, All, All-append, Result, ok, err, if-true,
}
use privsep_rs.Process.{Str}
use privsep_rs.Log.Targets.{
  Level, LogError, send_error, Record, format_log, Effect, Priorities, Target, log_str,
}
use privsep_rs.Log.Async.{
  Message, entry, close, Async, new, log_sync, log_async, received, listen, drop,
}

-- What a program logs: a record and the pairs of its logger.
abbrev pub Logged : Type 0
Logged = Record × List (Str × Str)

abbrev pub is_entry : Message → Bool
is_entry (entry level message) = true
is_entry close = false

-- The task is told to take one message after the other.
abbrev pub repeat : {A : Type 0} → (A → A) → ℕ → A → A
repeat f zero a = a
repeat f (suc n) a = repeat f n (f a)

module _ (at_least : Level → Level → Bool) (p : Priorities)
    (write_all : Str → Result LogError (Unit {0})) (target : Target) where
  -- A record is logged, or the task takes a message.
  pub data Step (a : Async) : List Logged → Async → Type 0 where
    logs :
        (r : Record) (values : List (Str × Str))
        → Step a ((r, values) ∷ []) (log_async at_least p write_all target r values a).0
    listens : Step a [] (listen at_least p write_all target a)

  pub data Run : Async → List Logged → Async → Type 0 where
    stop : {a : Async} → Run a [] a
    step :
        {a b c : Async} {first later : List Logged}
        → Step a first b
        → Run b later c
        → Run a (first ++ later) c

  -- What the target does for these messages.
  abbrev pub effects : List Message → List Effect
  effects [] = []
  effects (entry level message ∷ queue) = (log_str p write_all target message).0 ++ effects queue
  effects (close ∷ queue) = []

  -- What a drain without a queue does for these records, in order.
  abbrev pub sync_output : List Logged → List Effect
  sync_output [] = []
  sync_output ((r, values) ∷ records) =
      (log_sync at_least p write_all target r values).0 ++ sync_output records

  effects-append :
      (queue more : List Message)
      → All (λ m. is_entry m ≡ true) queue
      → effects (queue ++ more) ≡ effects queue ++ effects more
  effects-append [] more all = refl
  effects-append (entry level message ∷ queue) more all =
      simp (list_laws, effects-append queue more all.1)
  effects-append (close ∷ queue) more all = cc (all.0)

  sync_output-append :
      (records more : List Logged)
      → sync_output (records ++ more) ≡ sync_output records ++ sync_output more
  sync_output-append [] more = refl
  sync_output-append ((r, values) ∷ records) more =
      simp (list_laws, sync_output-append records more)

  -- The task has not lost a record that was logged.
  pub record Delivers (a : Async) (records : List Logged) : Type 0 where
    pub listening : a.listening ≡ true
    pub entries : All (λ m. is_entry m ≡ true) a.queue
    pub output : a.output ++ effects a.queue ≡ sync_output records

  logs-Delivers :
      (a : Async) (records : List Logged) (r : Record) (values : List (Str × Str))
      → Delivers a records
      → Delivers
          (log_async at_least p write_all target r values a).0
          (records ++ ((r, values) ∷ []))
  unfolding log_async log_sync
  logs-Delivers a records r values d =
      let m = entry r.level (format_log at_least r values) in
      let out = (log_str p write_all target (format_log at_least r values)).0 in
      subst
        (λ (x : Async × Result LogError (Unit {0})). Delivers x.0 (records ++ ((r, values) ∷ [])))
        (sym (
          if-true a.listening (record a { queue = a.queue ++ (m ∷ []) }, ok tt) (a, err send_error)
            d.listening))
        (record {
          listening = d.listening;
          entries = All-append (λ x. is_entry x ≡ true) a.queue (m ∷ []) d.entries (refl, tt);
          output =
              ap (λ (es : List Effect). a.output ++ es) (effects-append a.queue (m ∷ []) d.entries)
              ∙ sym (append_assoc a.output (effects a.queue) (out ++ []))
              ∙ ap (λ (es : List Effect). es ++ (out ++ [])) d.output
              ∙ sym (sync_output-append records ((r, values) ∷ []));
        })

  received-Delivers :
      (queue : List Message) (a : Async) (records : List Logged)
      → a.queue ≡ queue
      → Delivers a records
      → Delivers (received at_least p write_all target queue a) records
  received-Delivers [] a records e d = d
  received-Delivers (close ∷ queue) a records e d =
      absurd (cc (subst (λ (q : List Message). All (λ m. is_entry m ≡ true) q) e d.entries).0)
  received-Delivers (entry level message ∷ queue) a records e d = record {
    listening = d.listening;
    entries = (subst (λ (q : List Message). All (λ m. is_entry m ≡ true) q) e d.entries).1;
    output =
        append_assoc a.output (log_str p write_all target message).0 (effects queue)
        ∙ ap (λ (q : List Message). a.output ++ effects q) (sym e)
        ∙ d.output;
  }

  listens-Delivers :
      (a : Async) (records : List Logged)
      → Delivers a records
      → Delivers (listen at_least p write_all target a) records
  unfolding listen
  listens-Delivers a records d =
      subst (λ (x : Async). Delivers x records)
        (sym (if-true a.listening (received at_least p write_all target a.queue a) a d.listening))
        (received-Delivers a.queue a records refl d)

  step-Delivers :
      (a b : Async) (done more : List Logged)
      → Step a more b
      → Delivers a done
      → Delivers b (done ++ more)
  step-Delivers a b done more (logs r values) d = logs-Delivers a done r values d
  step-Delivers a b done more listens d =
      subst (Delivers (listen at_least p write_all target a)) (sym (append-nil done))
        (listens-Delivers a done d)

  Run-Delivers_from :
      (a b : Async) (done later : List Logged)
      → Run a later b
      → Delivers a done
      → Delivers b (done ++ later)
  Run-Delivers_from a b done [] stop d = subst (Delivers a) (sym (append-nil done)) d
  Run-Delivers_from a c done _ (step {b = b} {first = first} {later = later} s run) d =
      subst (Delivers c) (append_assoc done first later)
        (Run-Delivers_from b c (done ++ first) later run (step-Delivers a b done first s d))

  -- Whatever the order in which records are logged and the task takes messages from the start on: the
  -- task still receives, and what its target did, with what it will do for the messages in the
  -- queue, is what a drain without a queue does for the logged records, in order.
  pub Run-Delivers : (a : Async) (records : List Logged) → Run new records a → Delivers a records
  Run-Delivers a records run =
      Run-Delivers_from new a [] records run
        (record { listening = refl; entries = tt; output = refl })

  -- The task, told often enough, works through the entries up to `close`, and stops.
  repeat-close :
      (queue : List Message) (out : List Effect)
      → All (λ m. is_entry m ≡ true) queue
      → repeat
          (listen at_least p write_all target)
          (suc (length queue))
          (record { queue = queue ++ (close ∷ []); listening = true; output = out })
        ≡ record { queue = []; listening = false; output = out ++ effects queue }
  unfolding listen
  repeat-close [] out all =
      ap (λ (es : List Effect). record { queue = []; listening = false; output = es })
        (sym (append-nil out))
  repeat-close (entry level message ∷ queue) out all =
      let did = (log_str p write_all target message).0 in
      repeat-close queue (out ++ did) all.1
      ∙ ap (λ (es : List Effect). record { queue = []; listening = false; output = es })
          (append_assoc out did (effects queue))
  repeat-close (close ∷ queue) out all = cc (all.0)

  drop_listening :
      (a : Async)
      → a.listening ≡ true
      → drop at_least p write_all target a
        ≡ (record { queue = a.queue ++ (close ∷ []); listening = true; output = a.output }, ok tt)
  drop_listening a e =
      if-true a.listening (record a { queue = a.queue ++ (close ∷ []) }, ok tt) (a, err send_error)
        e
      ∙ ap
          (λ (b : Bool).
            (record { queue = a.queue ++ (close ∷ []); listening = b; output = a.output }, ok tt))
          e

  -- After any such run the drop of the logger sends its message without a panic, and the task, told
  -- to take as many messages as there are, stops, and its target has done just what a drain without
  -- a queue does for all logged records, in order.
  pub drop-flushes :
      (a : Async) (records : List Logged)
      → Run new records a
      → let dropped = drop at_least p write_all target a in
        (dropped.1 ≡ ok tt)
        × (repeat (listen at_least p write_all target) (suc (length a.queue)) dropped.0
            ≡ record { queue = []; listening = false; output = sync_output records })
  drop-flushes a records run =
      let d = Run-Delivers a records run in
      (
        ap (λ (x : Async × Result LogError (Unit {0})). x.1) (drop_listening a d.listening),
        ap
              (λ (x : Async × Result LogError (Unit {0})).
                repeat (listen at_least p write_all target) (suc (length a.queue)) x.0)
              (drop_listening a d.listening)
            ∙ repeat-close a.queue a.output d.entries
            ∙ ap (λ (es : List Effect). record { queue = []; listening = false; output = es })
                d.output,
      )
