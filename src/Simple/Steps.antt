-- ===== src/Simple/Steps.antt =====
-- The steps of parent::main in privsep/examples/simple.rs before its loop.
use privsep_rs.Prelude.{◌≡◌, refl, Option, none, some, List, ◌++◌, Result, ok, err}
use privsep_rs.Stream.{IoError, Poll, pending, ready, SendEvent, Packet}
use privsep_rs.Imsg.{Handler}
use privsep_rs.Imsg.Send.{Sent}
use privsep_rs.Process.{Str}
use privsep_rs.Process.Session.{SessionError}
use privsep_rs.Log.Targets.{LogError}
use privsep_rs.Simple.Select.{Run}
use privsep_rs.Simple.Child.{looped, Main, sent_on, with_logger, with_peer}
use privsep_rs.Simple.Parent.{sent_or, with_signal, with_daemon}

-- Each step before the loop that lets the program come to it had no error, and went on with the rest.
pub with_logger-looped :
    (show_log : LogError → Str) (l : Result LogError (Unit {0})) (rest : Main) (run : Run)
    → (with_logger show_log l rest).outcome ≡ looped run
    → (l ≡ ok tt) × (with_logger show_log l rest ≡ rest)
with_logger-looped show_log (err e) rest run h = cc h
with_logger-looped show_log (ok _) rest run h = (refl, refl)

pub with_signal-looped :
    (r : Result IoError (Unit {0})) (rest : Main) (run : Run)
    → (with_signal r rest).outcome ≡ looped run
    → (r ≡ ok tt) × (with_signal r rest ≡ rest)
with_signal-looped (err e) rest run h = cc h
with_signal-looped (ok _) rest run h = (refl, refl)

pub with_daemon-looped :
    (d : Option (Result SessionError (Unit {0}))) (rest : Main) (run : Run)
    → (with_daemon d rest).outcome ≡ looped run
    → (d ≡ some (ok tt)) × (with_daemon d rest ≡ rest)
with_daemon-looped none rest run h = cc h
with_daemon-looped (some (err e)) rest run h = cc h
with_daemon-looped (some (ok _)) rest run h = (refl, refl)

pub with_peer-looped :
    (o : Option Handler) (rest : Handler → Main) (run : Run)
    → (with_peer o rest).outcome ≡ looped run
    → (h : Handler) × (o ≡ some h) × (with_peer o rest ≡ rest h)
with_peer-looped none rest run e = cc e
with_peer-looped (some h) rest run e = (h, refl, refl)

pub poll-looped :
    (h : Handler) (p : Poll (Result IoError (Unit {0}))) (packets : List Packet)
    (events : List SendEvent) (rest : Main) (run : Run)
    → let s : Sent = record { result = p; packets = packets; events = events } in
      (sent_or h s rest).outcome ≡ looped run
      → (p ≡ ready (ok tt))
        × (sent_or h s rest ≡ record rest { sent = sent_on h packets ++ rest.sent })
poll-looped h pending packets events rest run e = cc e
poll-looped h (ready (err kind)) packets events rest run e = cc e
poll-looped h (ready (ok _)) packets events rest run e = (refl, refl)

pub sent_or-looped :
    (h : Handler) (s : Sent) (rest : Main) (run : Run)
    → (sent_or h s rest).outcome ≡ looped run
    → (s.result ≡ ready (ok tt))
      × (sent_or h s rest ≡ record rest { sent = sent_on h s.packets ++ rest.sent })
sent_or-looped h s rest run e = poll-looped h s.result s.packets s.events rest run e
