-- ===== src/WebSocket/Backoff.antt =====
-- The delay before a reconnection.
use native.Mathlib.Nat.{pow-suc}
use voting_app.Prelude.{
  ℕ, zero, suc, ◌*◌, ◌^◌, ◌≤◌, ◌≡◌, min, arith, All, List, [], ◌∷◌, refl, Option, none, some,
}
use voting_app.WebSocket.{
  Hook, Timer, retry_delay, clear_timer, remove_timer, Event, opened, received, errored, closed,
  fired, mounts, unmounts, step, run, mount, fresh,
}

pow_pos : (n : ℕ) → 1 ≤ 2 ^ n
pow_pos zero = omega arith
pow_pos (suc n) = omega (arith, pow_pos n, pow-suc 2 n)

-- The delay starts at one second and doubles after each failure, up to thirty seconds; it is never
-- below one second nor above thirty.
pub retry_delay_doubles :
    (n : ℕ)
    → (retry_delay 0 ≡ 1000)
      × (retry_delay (suc n) ≡ min (2 * retry_delay n) 30000)
      × (1000 ≤ retry_delay n)
      × (retry_delay n ≤ 30000)
unfolding retry_delay
retry_delay_doubles n = (refl, omega (arith, pow-suc 2 n), omega (arith, pow_pos n), omega arith)

abbrev pub IsBounded : Timer → Type 0
IsBounded t = (1000 ≤ t.delay) × (t.delay ≤ 30000)

clear-IsBounded :
    (r : Option ℕ) (l : List Timer) → All IsBounded l → All IsBounded (clear_timer r l)
unfolding clear_timer
clear-IsBounded none l h = h
clear-IsBounded (some k) [] h = tt
clear-IsBounded (some k) (t ∷ l) (p, h) = ground (arith, clear-IsBounded (some k) l h)

remove-IsBounded : (k : ℕ) (l : List Timer) → All IsBounded l → All IsBounded (remove_timer k l)
unfolding remove_timer
remove-IsBounded k [] h = tt
remove-IsBounded k (t ∷ l) (p, h) = ground (arith, remove-IsBounded k l h)

abbrev pub AllBounded : Hook → Type 0
AllBounded h = All IsBounded h.timers

pub step-AllBounded : (h : Hook) (e : Event) → AllBounded h → AllBounded (step h e)
unfolding step
step-AllBounded h (opened k) v = ground arith
step-AllBounded h (received k msg) v = ground arith
step-AllBounded h (errored k) v = v
step-AllBounded h (closed k) v = ground (arith, retry_delay_doubles h.retry_count)
step-AllBounded h (fired k) v = ground (arith, remove-IsBounded k h.timers v)
step-AllBounded h mounts v = ground arith
step-AllBounded h unmounts v = ground (arith, clear-IsBounded h.retry_timer h.timers v)

pub run-AllBounded : (h : Hook) (es : List Event) → AllBounded h → AllBounded (run h es)
unfolding run
run-AllBounded h [] v = v
run-AllBounded h (e ∷ es) v = run-AllBounded (step h e) es (step-AllBounded h e v)

pub fresh-mount-AllBounded : AllBounded (mount fresh)
unfolding mount fresh
fresh-mount-AllBounded = tt
