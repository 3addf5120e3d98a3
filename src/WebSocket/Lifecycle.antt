-- ===== src/WebSocket/Lifecycle.antt =====
-- What holds of the hook from its first mount on, whatever the network does.
use voting_app.Prelude.{
  ℕ, ◌+◌, ◌≡◌, ◌≢◌, ◌≤◌, refl, List, [], ◌∷◌, true, false, if◌then◌else◌, length, All, arith,
  ==-refl, ◌∙◌,
}
use voting_app.Types.{connecting}
use voting_app.WebSocket.{
  Hook, Timer, fresh, mount, Event, fired, mounts, unmounts, step, run, find_timer, remove_timer,
  opened, received, errored, closed,
}
use voting_app.WebSocket.Backoff.{IsBounded, run-AllBounded, fresh-mount-AllBounded}
use voting_app.WebSocket.Inv.{Inv, step-Inv, run-Inv, fresh-mount-Inv}
use voting_app.WebSocket.Sockets.{listening}

-- While the component is mounted there is exactly one of the two: a socket whose close will be
-- noticed, or a pending retry. When it is not mounted there is neither.
pub connection_or_retry :
    (es : List Event)
    → let h = run (mount fresh) es in
      listening h.sockets + length h.timers ≡ (if h.is_mounted then 1 else 0)
connection_or_retry es = (run-Inv (mount fresh) es fresh-mount-Inv).one

single : (l : List Timer) → length l ≡ 1 → (t : Timer) × (l ≡ t ∷ [])
single [] e = absurd (omega arith)
single (t ∷ []) e = (t, refl)
single (t ∷ u ∷ l) e = absurd (omega arith)

fired_reconnects :
    (h : Hook) (t : Timer)
    → h.is_mounted ≡ true
    → listening h.sockets ≡ 0
    → h.timers ≡ t ∷ []
    → let g = step h (fired t.id) in
      (g.status ≡ connecting) × (listening g.sockets ≡ 1) × (g.timers ≡ [])
unfolding step find_timer remove_timer
fired_reconnects h t m l e = ground (arith, ==-refl t.id)

-- A mounted hook with no connection has one pending retry, of at most thirty seconds, and when it
-- elapses the hook opens one new connection.
pub retry_reconnects :
    (es : List Event)
    → (run (mount fresh) es).is_mounted ≡ true
    → listening (run (mount fresh) es).sockets ≡ 0
    → (t : Timer) × ((run (mount fresh) es).timers ≡ t ∷ [])
      × (t.delay ≤ 30000)
      × ((step (run (mount fresh) es) (fired t.id)).status ≡ connecting)
      × (listening (step (run (mount fresh) es) (fired t.id)).sockets ≡ 1)
      × ((step (run (mount fresh) es) (fired t.id)).timers ≡ [])
retry_reconnects es m l =
    let h = run (mount fresh) es in
    let (t, e) = single h.timers (ground (arith, connection_or_retry es)) in
    let bounds : All IsBounded (t ∷ []) =
      rw e at (run-AllBounded (mount fresh) es fresh-mount-AllBounded) in
    let (a, b, c) = fired_reconnects h t m l e in (t, e, bounds.0.1, a, b, c)

-- The same state as the component and the browser see it.
abbrev pub SameView : Hook → Hook → Type 0
SameView g h =
    (g.is_mounted ≡ h.is_mounted)
    × (g.next_id ≡ h.next_id)
    × (g.status ≡ h.status)
    × (g.candidates ≡ h.candidates)
    × (g.voting_status ≡ h.voting_status)

unmounted_step :
    (h : Hook) (e : Event)
    → h.is_mounted ≡ false
    → h.timers ≡ []
    → e ≢ mounts
    → SameView (step h e) h × ((step h e).timers ≡ [])
unfolding step find_timer
unmounted_step h mounts m t n = absurd (n refl)
unmounted_step h (opened k) m t n = ground arith
unmounted_step h (received k msg) m t n = ground arith
unmounted_step h (errored k) m t n = ground arith
unmounted_step h (closed k) m t n = ground arith
unmounted_step h (fired k) m t n = ground arith
unmounted_step h unmounts m t n = ground arith

unmounted_run :
    (h : Hook) (es : List Event)
    → h.is_mounted ≡ false
    → h.timers ≡ []
    → All (λ e. e ≢ mounts) es
    → SameView (run h es) h
unfolding run
unmounted_run h [] m t n = (refl, refl, refl, refl, refl)
unmounted_run h (e ∷ es) m t (n, ns) =
    let (same, t') = unmounted_step h e m t n in
    let rest = unmounted_run (step h e) es (same.0 ∙ m) t' ns in
    (rest.0 ∙ same.0, rest.1 ∙ same.1, rest.2 ∙ same.2, rest.3 ∙ same.3, rest.4 ∙ same.4)

is_mounted-unmounts : (h : Hook) → (step h unmounts).is_mounted ≡ false
unfolding step
is_mounted-unmounts h = ground arith

no_timers : (l : List Timer) (n : ℕ) → n + length l ≡ 0 → l ≡ []
no_timers [] n e = refl
no_timers (t ∷ l) n e = absurd (omega arith)

timers-unmounts : (h : Hook) → Inv h → (step h unmounts).timers ≡ []
timers-unmounts h v =
    no_timers _ (listening (step h unmounts).sockets)
      (ground (arith, (step-Inv h unmounts v).one, is_mounted-unmounts h))

-- After the component is unmounted, and until it is mounted again, no socket and no timer is made
-- (`next_id` counts them), and the candidates, the voting status and the connection status keep
-- their values, whatever events still arrive.
pub unmounted_silent :
    (es fs : List Event)
    → All (λ e. e ≢ mounts) fs
    → SameView
        (run (step (run (mount fresh) es) unmounts) fs)
        (step (run (mount fresh) es) unmounts)
unmounted_silent es fs n =
    let h = run (mount fresh) es in
    unmounted_run (step h unmounts) fs (is_mounted-unmounts h)
      (timers-unmounts h (run-Inv (mount fresh) es fresh-mount-Inv)) n
