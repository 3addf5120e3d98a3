-- ===== src/WebSocket/Inv.antt =====
-- The invariant of the hook: one connection or one pending retry while mounted, none after.
use voting_app.Prelude.{
  ℕ, ◌+◌, ◌≡◌, Option, none, some, List, [], ◌∷◌, Bool, true, false, if◌then◌else◌, length, All,
  ◌<◌, arith, refl, Bool-cases, Option-cases, inl, inr,
}
use voting_app.Types.{Candidate, WsVotingStatus, WsMessage}
use voting_app.WebSocket.{
  Socket, Timer, Hook, fresh, connect, on_close, on_error, unmount, mount, find_socket,
  remove_socket, find_timer, remove_timer, on_open, on_message, if_live, apply_message,
  set_candidates, set_voting_status, Event, opened, received, errored, closed, fired, mounts,
  unmounts, step, run,
}
use voting_app.WebSocket.Sockets.{
  listening, IsRef, IsRetry, refs_of_none, listening-close, refs-close, listening-silence,
  clear_timer-All, listening-remove, refs-remove, length-remove,
}

pub record Inv (h : Hook) : Type 0 where
  pub one : listening h.sockets + length h.timers ≡ (if h.is_mounted then 1 else 0)
  pub refs : All (IsRef h.ws_ref) h.sockets
  pub retries : All (IsRetry h.retry_timer) h.timers

connect-Inv :
    (h : Hook) → h.is_mounted ≡ true → listening h.sockets ≡ 0 → h.timers ≡ [] → Inv (connect h)
unfolding connect
connect-Inv h m l t = rw m (record {
  one = rw (l, t) refl;
  refs = (λ e. refl, refs_of_none (some h.next_id) h.sockets l);
  retries = rw t tt;
})

timers_of_length : (l : List Timer) → length l ≡ 0 → l ≡ []
timers_of_length [] e = refl
timers_of_length (t ∷ l) e = absurd (omega arith)

if-Inv : (b : Bool) (g h : Hook) → Inv g → Inv h → Inv (if b then g else h)
if-Inv true g h v w = v
if-Inv false g h v w = w

split-Inv :
    (b : Bool) (g h : Hook) → (b ≡ true → Inv g) → (b ≡ false → Inv h) → Inv (if b then g else h)
split-Inv true g h v w = v refl
split-Inv false g h v w = w refl

live-Inv :
    (o : Option Socket) (f : Hook → Hook) (h : Hook) → Inv h → Inv (f h) → Inv (if_live o f h)
live-Inv none f h v w = v
live-Inv (some s) f h v w = if-Inv s.closing h (f h) v w

open-Inv : (h : Hook) → Inv h → Inv (on_open h)
unfolding on_open
open-Inv h v =
    if-Inv h.is_mounted _ h (record { one = v.one; refs = v.refs; retries = v.retries }) v

apply-Inv : (msg : Option WsMessage) (h : Hook) → Inv h → Inv (apply_message msg h)
apply-Inv none h v = v
apply-Inv (some m) h v =
    status-Inv m.voting_status (set_candidates m.candidates h) (list-Inv m.candidates h v)
  where
    list-Inv : (o : Option (List Candidate)) (h : Hook) → Inv h → Inv (set_candidates o h)
    list-Inv none h v = v
    list-Inv (some l) h v = record { one = v.one; refs = v.refs; retries = v.retries }

    status-Inv :
        (o : Option (Option WsVotingStatus)) (h : Hook) → Inv h → Inv (set_voting_status o h)
    status-Inv none h v = v
    status-Inv (some l) h v = record { one = v.one; refs = v.refs; retries = v.retries }

message-Inv : (msg : Option WsMessage) (h : Hook) → Inv h → Inv (on_message msg h)
unfolding on_message
message-Inv msg h v = if-Inv h.is_mounted _ h (apply-Inv msg h v) v

error-Inv : (k : ℕ) (h : Hook) → Inv h → Inv (on_error k h)
unfolding on_error
error-Inv k h v = record {
  one = rw (listening-close k h.sockets) v.one;
  refs = refs-close h.ws_ref k h.sockets v.refs;
  retries = v.retries;
}

unmount-Inv : (h : Hook) → Inv h → Inv (unmount h)
unfolding unmount
unmount-Inv h v =
    let quiet = listening-silence h.ws_ref h.sockets v.refs in
    let none_left = clear_timer-All h.retry_timer h.timers v.retries in
    record {
      one = rw (quiet, none_left) refl;
      refs = refs_of_none _ _ quiet;
      retries = rw none_left tt;
    }

is_mounted_of_pos :
    (h : Hook) → Inv h → 0 < listening h.sockets + length h.timers → h.is_mounted ≡ true
is_mounted_of_pos h v p = ground (arith, v.one)

close-Inv :
    (k : ℕ) (h : Hook) (s : Socket)
    → Inv h
    → find_socket k h.sockets ≡ some s
    → s.listened ≡ true
    → Inv (on_close (record h { sockets = remove_socket k h.sockets }))
unfolding on_close
close-Inv k h s v f l =
    let count = listening-remove k h.sockets f in
    let left : listening (remove_socket k h.sockets) + 1 ≡ listening h.sockets = rw l at count in
    let m = is_mounted_of_pos h v (omega arith) in
    let total : listening h.sockets + length h.timers ≡ 1 = rw m at v.one in
    let no_timers = timers_of_length h.timers (omega arith) in
    let no_sockets : listening (remove_socket k h.sockets) ≡ 0 = omega arith in
    rw m (record {
      one = rw (no_timers, no_sockets) refl;
      refs = refs_of_none none (remove_socket k h.sockets) no_sockets;
      retries = rw no_timers (refl, tt);
    })

quiet-Inv :
    (k : ℕ) (h : Hook) (s : Socket)
    → Inv h
    → find_socket k h.sockets ≡ some s
    → s.listened ≡ false
    → Inv (record h { sockets = remove_socket k h.sockets })
quiet-Inv k h s v f l =
    let count = listening-remove k h.sockets f in
    let same : listening (remove_socket k h.sockets) + 0 ≡ listening h.sockets = rw l at count in
    let same' : listening (remove_socket k h.sockets) ≡ listening h.sockets = omega arith in
    record {
      one = rw same' v.one;
      refs = refs-remove h.ws_ref k h.sockets v.refs;
      retries = v.retries;
    }

fire-Inv :
    (k : ℕ) (h : Hook) (t : Timer)
    → Inv h
    → find_timer k h.timers ≡ some t
    → Inv (connect (record h { timers = remove_timer k h.timers }))
fire-Inv k h t v f =
    let count = length-remove k h.timers f in
    let m = is_mounted_of_pos h v (omega arith) in
    let total : listening h.sockets + length h.timers ≡ 1 = rw m at v.one in
    connect-Inv _ m (omega arith) (timers_of_length (remove_timer k h.timers) (omega arith))

mount-Inv : (h : Hook) → Inv h → h.is_mounted ≡ false → Inv (mount h)
unfolding mount
mount-Inv h v m =
    let total : listening h.sockets + length h.timers ≡ 0 = rw m at v.one in
    connect-Inv (record h { is_mounted = true }) refl (omega arith)
      (timers_of_length h.timers (omega arith))

closed-Inv : (k : ℕ) (h : Hook) → Inv h → Inv (step h (closed k))
unfolding step
closed-Inv k h v = elim (Option-cases (find_socket k h.sockets)) [
  | inl e ↦ rw e v
  | inr (s, e) ↦ elim (Bool-cases s.listened) [
    | inl l ↦ rw (e, l) (close-Inv k h s v e l)
    | inr l ↦ rw (e, l) (quiet-Inv k h s v e l)
  ]
]

-- Every event keeps the invariant.
pub step-Inv : (h : Hook) (e : Event) → Inv h → Inv (step h e)
unfolding step
step-Inv h (opened k) v = live-Inv _ on_open h v (open-Inv h v)
step-Inv h (received k msg) v = live-Inv _ (on_message msg) h v (message-Inv msg h v)
step-Inv h (errored k) v = error-Inv k h v
step-Inv h (closed k) v = closed-Inv k h v
step-Inv h (fired k) v = elim (Option-cases (find_timer k h.timers)) [
  | inl e ↦ rw e v
  | inr (t, e) ↦ rw e (fire-Inv k h t v e)
]
step-Inv h mounts v = split-Inv h.is_mounted h (mount h) (λ e. v) (mount-Inv h v)
step-Inv h unmounts v = if-Inv h.is_mounted (unmount h) h (unmount-Inv h v) v

pub run-Inv : (h : Hook) (es : List Event) → Inv h → Inv (run h es)
unfolding run
run-Inv h [] v = v
run-Inv h (e ∷ es) v = run-Inv (step h e) es (step-Inv h e v)

pub fresh-mount-Inv : Inv (mount fresh)
unfolding mount fresh
fresh-mount-Inv = connect-Inv (record fresh { is_mounted = true }) refl refl refl
