-- ===== src/WebSocket/Tests.antt =====
-- Runs of the hook at concrete events, and the theorems at them.
use voting_app.Prelude.{◌+◌, ◌≡◌, ◌≤◌, refl, none, some, List, [], ◌∷◌, if◌then◌else◌, length}
use voting_app.Types.{Candidate, WsMessage, connecting, connected, disconnected}
use voting_app.WebSocket.{
  Timer, Event, opened, received, errored, closed, fired, mounts, unmounts, mount, fresh, step, run,
  retry_delay, find_socket, find_timer, remove_socket, remove_timer, clear_timer,
}
use voting_app.WebSocket.Lifecycle.{
  connection_or_retry, retry_reconnects, unmounted_silent, SameView,
}
use voting_app.WebSocket.Snapshot.{board, fold_board, board-run}
use voting_app.WebSocket.Sockets.{listening}

hook : Unit {0}
unfolding run step mount fresh find_socket find_timer remove_socket remove_timer clear_timer
    retry_delay
hook = tt

abbrev ann : Candidate
ann = record {
  id = 7;
  name = "Ann";
  description = [];
  image_path = [];
  total_votes = 3;
  created_at = "";
}

abbrev greeting : WsMessage
greeting = record { candidates = some (ann ∷ []); voting_status = none }

abbrev outage : List Event
outage = opened 0 ∷ received 0 (some greeting) ∷ errored 0 ∷ closed 0 ∷ fired 1 ∷ closed 2 ∷ []

outage_tests :
    ((run (mount fresh) outage).status ≡ disconnected)
    × ((run (mount fresh) outage).candidates ≡ ann ∷ [])
    × ((run (mount fresh) outage).timers ≡ record { id = 3; delay = 2000 } ∷ [])
unfolding hook
outage_tests = (refl, refl, refl)

-- A double mount, as React's strict mode makes it, leaves one connection.
remount_test :
    (run (mount fresh) (unmounts ∷ mounts ∷ errored 0 ∷ closed 0 ∷ opened 1 ∷ [])).status
    ≡ connected
unfolding hook
remount_test = refl

connection_or_retry_example :
    let h = run (mount fresh) outage in
    listening h.sockets + length h.timers ≡ (if h.is_mounted then 1 else 0)
connection_or_retry_example = connection_or_retry outage

retry_reconnects_example :
    (t : Timer) × ((run (mount fresh) outage).timers ≡ t ∷ [])
    × (t.delay ≤ 30000)
    × ((step (run (mount fresh) outage) (fired t.id)).status ≡ connecting)
    × (listening (step (run (mount fresh) outage) (fired t.id)).sockets ≡ 1)
    × ((step (run (mount fresh) outage) (fired t.id)).timers ≡ [])
unfolding hook
retry_reconnects_example = retry_reconnects outage refl refl

abbrev late : List Event
late = fired 3 ∷ opened 0 ∷ []

unmounted_silent_example :
    SameView
      (run (step (run (mount fresh) outage) unmounts) late)
      (step (run (mount fresh) outage) unmounts)
unmounted_silent_example = unmounted_silent outage late ((λ e. cc), ((λ e. cc), tt))

board-run_example :
    board (run (mount fresh) outage) ≡ fold_board (mount fresh) outage (board (mount fresh))
board-run_example = board-run (mount fresh) outage
