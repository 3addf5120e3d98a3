-- ===== src/WebSocket.antt =====
-- FrontEnd/src/hooks/useWebSocket.ts: the hook's state and refs, and the browser's side of them:
-- the sockets that may still deliver events and the pending timers. `JSON.parse` is not modelled:
-- a received message is its result, `none` where it throws.
pub mod Sockets
pub mod Inv
pub mod Lifecycle
pub mod Backoff
pub mod Snapshot
mod Tests
use voting_app.Prelude.{
  ℕ, ◌+◌, ◌*◌, ◌^◌, ◌==◌, ◌++◌, min, Option, none, some, List, [], ◌∷◌, Bool, true, false,
  if◌then◌else◌, map, length,
}
use voting_app.Types.{
  Candidate, WsVotingStatus, WsMessage, WsStatus, connecting, connected, disconnected,
}

-- A `WebSocket` object that has not delivered its close event. `listened` says that `onclose` is
-- set; `closing` that `close()` was called, after which no open and no message event comes.
pub record Socket : Type 0 where
  pub id : ℕ
  pub listened : Bool
  pub closing : Bool

-- A pending `setTimeout(connect, delay)`.
pub record Timer : Type 0 where
  pub id : ℕ
  pub delay : ℕ

pub record Hook : Type 0 where
  pub candidates : List Candidate
  pub voting_status : Option WsVotingStatus
  pub status : WsStatus
  pub ws_ref : Option ℕ
  pub retry_count : ℕ
  pub retry_timer : Option ℕ
  pub is_mounted : Bool
  pub sockets : List Socket
  pub timers : List Timer
  pub next_id : ℕ  -- the number of sockets and timers made so far

unfoldable pub fresh : Hook
fresh = record {
  candidates = [];
  voting_status = none;
  status = disconnected;
  ws_ref = none;
  retry_count = 0;
  retry_timer = none;
  is_mounted = true;
  sockets = [];
  timers = [];
  next_id = 0;
}

unfoldable pub connect : Hook → Hook
connect h =
    if h.is_mounted
    then record h {
      status = connecting;
      sockets = record { id = h.next_id; listened = true; closing = false } ∷ h.sockets;
      ws_ref = some h.next_id;
      next_id = h.next_id + 1;
    }
    else h

unfoldable pub on_open : Hook → Hook
on_open h = if h.is_mounted then record h { status = connected; retry_count = 0 } else h

abbrev pub set_candidates : Option (List Candidate) → Hook → Hook
set_candidates none h = h
set_candidates (some l) h = record h { candidates = l }

abbrev pub set_voting_status : Option (Option WsVotingStatus) → Hook → Hook
set_voting_status none h = h
set_voting_status (some s) h = record h { voting_status = s }

abbrev pub apply_message : Option WsMessage → Hook → Hook
apply_message none h = h
apply_message (some m) h = set_voting_status m.voting_status (set_candidates m.candidates h)

unfoldable pub on_message : Option WsMessage → Hook → Hook
on_message msg h = if h.is_mounted then apply_message msg h else h

-- Milliseconds before the next attempt, after `n` failures in a row.
unfoldable pub retry_delay : ℕ → ℕ
retry_delay n = min (1000 * 2 ^ n) 30000

unfoldable pub on_close : Hook → Hook
on_close h =
    if h.is_mounted
    then record h {
      status = disconnected;
      ws_ref = none;
      retry_count = h.retry_count + 1;
      timers = record { id = h.next_id; delay = retry_delay h.retry_count } ∷ h.timers;
      retry_timer = some h.next_id;
      next_id = h.next_id + 1;
    }
    else h

-- `ws.close()` on the socket `k`.
abbrev pub close_socket : ℕ → Socket → Socket
close_socket k s = if s.id == k then record s { closing = true } else s

unfoldable pub on_error : ℕ → Hook → Hook
on_error k h = record h { sockets = map (close_socket k) h.sockets }

-- `clearTimeout(retryTimer.current)`.
pub clear_timer : Option ℕ → List Timer → List Timer
clear_timer none l = l
clear_timer (some k) [] = []
clear_timer (some k) (t ∷ l) =
    if t.id == k then clear_timer (some k) l else t ∷ clear_timer (some k) l

-- `wsRef.current.onclose = null; wsRef.current.close()`.
abbrev pub silence : ℕ → Socket → Socket
silence k s = if s.id == k then record s { listened = false; closing = true } else s

abbrev pub silence_ref : Option ℕ → List Socket → List Socket
silence_ref none l = l
silence_ref (some k) l = map (silence k) l

-- The effect's cleanup.
unfoldable pub unmount : Hook → Hook
unmount h = record h {
  is_mounted = false;
  timers = clear_timer h.retry_timer h.timers;
  sockets = silence_ref h.ws_ref h.sockets;
}

-- The effect.
unfoldable pub mount : Hook → Hook
unfolding connect
mount h = connect (record h { is_mounted = true })

unfoldable pub find_socket : ℕ → List Socket → Option Socket
find_socket k [] = none
find_socket k (s ∷ l) = if s.id == k then some s else find_socket k l

unfoldable pub remove_socket : ℕ → List Socket → List Socket
remove_socket k [] = []
remove_socket k (s ∷ l) = if s.id == k then l else s ∷ remove_socket k l

unfoldable pub find_timer : ℕ → List Timer → Option Timer
find_timer k [] = none
find_timer k (t ∷ l) = if t.id == k then some t else find_timer k l

unfoldable pub remove_timer : ℕ → List Timer → List Timer
remove_timer k [] = []
remove_timer k (t ∷ l) = if t.id == k then l else t ∷ remove_timer k l

-- What the browser and React do to the hook. An event of a socket or timer that is not there does
-- nothing. The effect runs again only after its cleanup.
pub data Event : Type 0 where
  opened : ℕ → Event
  received : ℕ → Option WsMessage → Event
  errored : ℕ → Event
  closed : ℕ → Event
  fired : ℕ → Event
  mounts unmounts : Event

-- The socket's event, if it is still to deliver open and message events.
abbrev pub if_live : Option Socket → (Hook → Hook) → Hook → Hook
if_live none f h = h
if_live (some s) f h = if s.closing then h else f h

abbrev pub if_listened : Option Socket → (Hook → Hook) → (Hook → Hook) → Hook → Hook
if_listened none f g h = h
if_listened (some s) f g h = if s.listened then g (f h) else f h

abbrev pub if_pending : Option Timer → (Hook → Hook) → Hook → Hook
if_pending none f h = h
if_pending (some t) f h = f h

unfoldable pub step : Hook → Event → Hook
unfolding on_open on_message on_error on_close connect unmount mount
step h (opened k) = if_live (find_socket k h.sockets) on_open h
step h (received k msg) = if_live (find_socket k h.sockets) (on_message msg) h
step h (errored k) = on_error k h
step h (closed k) =
    if_listened (find_socket k h.sockets) (λ g. record g { sockets = remove_socket k g.sockets })
      on_close h
step h (fired k) =
    if_pending (find_timer k h.timers)
      (λ g. connect (record g { timers = remove_timer k g.timers })) h
step h mounts = if h.is_mounted then h else mount h
step h unmounts = if h.is_mounted then unmount h else h

unfoldable pub run : Hook → List Event → Hook
run h [] = h
run h (e ∷ es) = run (step h e) es
