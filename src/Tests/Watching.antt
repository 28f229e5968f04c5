-- ===== src/Tests/Watching.antt =====
-- Runs of the watchdog's loop.
use shipmunk_runner.Prelude.{
  ℕ, arith, ◌≡◌, refl, Bool, inl, inr, All, true, false, Bytes, codes, none, some, List, [], ◌∷◌,
  ◌++◌, pos, format_int,
}
use shipmunk_runner.Supervisor.Lease.{full_container_id}
use shipmunk_runner.Sandbox.Input.{messages_of}
use shipmunk_runner.Sandbox.Watch.{
  Watch, Turn, Arming, ended, cleanup, disarmed, unwritten, new_watch, lease_of, deadline_of,
  run_watchdog_command, turn, on_message, on_numbered, started_text, finished_text,
}
use shipmunk_runner.Sandbox.Control.{
  new_lease, written, response, ack_text, create_started, create_finished, send_phase, disarm,
  Disarming, absent, phase_message,
}
use shipmunk_runner.Sandbox.Control.Message.{phase_line, phase_message_lem}
use shipmunk_runner.Sandbox.Control.Exchange.{
  System, Reach, arms, starts, finishes, reads, still, phase, started, finished, Told,
}
use shipmunk_runner.Sandbox.Control.Agreed.{handle_agrees}
use shipmunk_runner.Sandbox.Watch.Guarded.{Guarded, run_watchdog_command-Guarded}

abbrev container : Bytes
container = codes "0123456789abcdef0123456789abcdef0123456789abcdef0123456789abcdef"

abbrev hears : ℕ → Bytes → Turn
hears now m = record {
  now = now;
  message = some m;
  wall = now;
  after = now;
  written = true;
  absent = λ _. true;
}

abbrev arming : Arming
arming = record { wall = 10; after = 10; lease_wall = 11; lease_after = 11; now = 12; ready = true }

abbrev lived : List Turn
lived =
    hears 13 (codes "phase:1:started:")
    ∷ hears 14 (codes "disarm")
    ∷ hears 15 (codes "phase:2:finished:" ++ container)
    ∷ hears 16 (codes "renew:90")
    ∷ hears 17 (codes "disarm")
    ∷ []

-- A disarming is ignored while a creation is in flight, and taken after it.
lived_ends :
    run_watchdog_command (codes "n") (pos 100) (pos 50) arming lived ≡ some (ended disarmed)
unfolding run_watchdog_command
lived_ends = refl

run_watchdog_command-Guarded_example :
    Guarded
      (codes "n")
      (deadline_of arming (pos 100))
      (new_watch (lease_of arming (pos 100) (pos 50)))
      lived
      (ended disarmed)
run_watchdog_command-Guarded_example =
    run_watchdog_command-Guarded (codes "n") (pos 100) (pos 50) arming lived (ended disarmed)
      lived_ends

-- The lease ends with a creation in flight.
lapsed :
    run_watchdog_command
      (codes "n")
      (pos 100)
      (pos 50)
      arming
      (hears 13 (codes "phase:1:started:") ∷ hears 60 (codes "disarm") ∷ [])
    ≡ some (ended (cleanup true []))
unfolding run_watchdog_command
lapsed = refl

lines_read :
    messages_of (codes "renew:7\n" ++ (codes "disarm\r\n" ++ codes "x"))
    ≡ codes "renew:7" ∷ codes "disarm" ∷ codes "eof" ∷ []
unfolding messages_of
lines_read = refl

phase_message_lem_example :
    (messages_of (phase_message 7 finished_text container ++ codes "disarm\n")
      ≡ phase_line 7 finished_text container ∷ messages_of (codes "disarm\n"))
    × (on_message
          (codes "n")
          100
          (new_watch 50)
          (hears 13 [])
          (phase_line 7 finished_text container)
        ≡ on_numbered (new_watch 50) finished_text container true (some 7))
unfolding full_container_id
phase_message_lem_example =
    phase_message_lem 7 finished_text container (omega arith) (inr (refl, refl)) (codes "disarm\n")
      (codes "n") 100 (new_watch 50) (hears 13 [])

abbrev armed : System
armed = record { lease = new_lease; watch = new_watch 50; pipe = []; latest = none }

abbrev creating : Watch
creating = record (new_watch 50) { last = 1; in_flight = true; acks = 1 ∷ [] }

abbrev container_created : Watch
container_created = record creating {
  last = 2;
  in_flight = false;
  finished = true;
  confirmed = container;
  acks = 2 ∷ 1 ∷ [];
}

-- A creation that starts and finishes, whose second response comes after the first one again.
abbrev in_creation : System
in_creation = record {
  lease = (create_started new_lease written (response (ack_text 1) ∷ [])).0;
  watch = creating;
  pipe = [];
  latest = some started;
}

first_acknowledged : All (Told (1 ∷ [])) (response (ack_text 1) ∷ [])
first_acknowledged = (inl (1, refl, refl), tt)

in_creation-Reach : Reach (codes "n") 100 in_creation
unfolding turn format_int
in_creation-Reach =
    starts {s = armed} written (response (ack_text 1) ∷ []) (phase 1 started ∷ []) creating []
      (arms 50 (omega arith)) refl refl (omega arith) (refl, tt)
      (reads creating (hears 13 (phase_line 1 started_text [])) (phase 1 started) refl refl still)
      first_acknowledged

abbrev after_creation : System
after_creation = record {
  lease =
      (create_finished in_creation.lease container written
        (response (ack_text 1) ∷ response (ack_text 2) ∷ [])).0;
  watch = container_created;
  pipe = [];
  latest = some (finished container);
}

after_creation-Reach : Reach (codes "n") 100 after_creation
unfolding turn format_int create_started send_phase
after_creation-Reach =
    finishes {s = in_creation} container written
      (response (ack_text 1) ∷ response (ack_text 2) ∷ []) (phase 2 (finished container) ∷ [])
      container_created [] in_creation-Reach refl refl refl (omega arith) (refl, tt)
      (reads container_created (hears 14 (phase_line 2 finished_text container))
        (phase 2 (finished container)) refl refl still)
      (inl (1, refl, refl), (inl (2, refl, refl), tt))

handle_agrees_example :
    (after_creation.lease.unknown ≡ false
      → (false ≡ after_creation.lease.in_flight)
        × (true ≡ after_creation.lease.finished)
        × (container ≡ after_creation.lease.confirmed))
    × ((d : Disarming)
        → (disarm (codes "n") after_creation.lease d).1 ≡ none
        → (◌≡◌ {A = Bool} false false) × (d.codex ≡ false → d.found container ≡ absent))
handle_agrees_example = handle_agrees (codes "n") 100 after_creation after_creation-Reach

-- The handle is certain then, so the first half says that the two agree.
after_creation_certain : after_creation.lease.unknown ≡ false
unfolding create_started create_finished send_phase
after_creation_certain = refl

-- The parent is gone before it hears of the finished creation.
orphaned :
    run_watchdog_command (codes "n") (pos 100) (pos 50) arming (
      hears 13 (codes "phase:1:started:")
      ∷ record (hears 15 (codes "phase:2:finished:" ++ container)) { written = false }
      ∷ [])
    ≡ some (ended unwritten)
unfolding run_watchdog_command
orphaned = refl
