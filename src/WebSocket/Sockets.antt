-- ===== src/WebSocket/Sockets.antt =====
-- The lists of sockets and timers of the hook: which sockets still listen, and what the hook's
-- operations on these lists keep.
use voting_app.Prelude.{
  ℕ, suc, ◌+◌, ◌≡◌, Option, none, some, List, [], ◌∷◌, true, if◌then◌else◌, map, length, All, arith,
  refl,
}
use voting_app.WebSocket.{
  Socket, Timer, close_socket, clear_timer, silence_ref, find_socket, remove_socket, find_timer,
  remove_timer,
}

-- The number of sockets whose `onclose` is set.
abbrev pub listening : List Socket → ℕ
listening [] = 0
listening (s ∷ l) = if s.listened then suc (listening l) else listening l

abbrev pub IsRef : Option ℕ → Socket → Type 0
IsRef r s = s.listened ≡ true → r ≡ some s.id

abbrev pub IsRetry : Option ℕ → Timer → Type 0
IsRetry r t = r ≡ some t.id

-- No socket listens: nothing is asked of the reference.
pub refs_of_none : (r : Option ℕ) (l : List Socket) → listening l ≡ 0 → All (IsRef r) l
refs_of_none r [] e = tt
refs_of_none r (s ∷ l) e = (ground arith, refs_of_none r l (ground arith))

pub listening-close : (k : ℕ) (l : List Socket) → listening (map (close_socket k) l) ≡ listening l
listening-close k [] = refl
listening-close k (s ∷ l) = ground (arith, listening-close k l)

pub refs-close :
    (r : Option ℕ) (k : ℕ) (l : List Socket)
    → All (IsRef r) l
    → All (IsRef r) (map (close_socket k) l)
refs-close r k [] h = tt
refs-close r k (s ∷ l) (p, h) = (ground arith, refs-close r k l h)

pub listening-silence :
    (r : Option ℕ) (l : List Socket) → All (IsRef r) l → listening (silence_ref r l) ≡ 0
listening-silence none [] h = refl
listening-silence none (s ∷ l) (p, h) = ground (arith, listening-silence none l h)
listening-silence (some k) [] h = refl
listening-silence (some k) (s ∷ l) (p, h) = ground (arith, listening-silence (some k) l h)

pub clear_timer-All : (r : Option ℕ) (l : List Timer) → All (IsRetry r) l → clear_timer r l ≡ []
unfolding clear_timer
clear_timer-All none [] h = refl
clear_timer-All none (t ∷ l) (p, h) = cc
clear_timer-All (some k) [] h = refl
clear_timer-All (some k) (t ∷ l) (p, h) = ground (arith, clear_timer-All (some k) l h)

pub listening-remove :
    (k : ℕ) (l : List Socket) {s : Socket}
    → find_socket k l ≡ some s
    → listening (remove_socket k l) + (if s.listened then 1 else 0) ≡ listening l
unfolding find_socket remove_socket
listening-remove k [] e = cc
listening-remove k (t ∷ l) {s} e = ground (arith, listening-remove k l {s = s})

pub refs-remove :
    (r : Option ℕ) (k : ℕ) (l : List Socket) → All (IsRef r) l → All (IsRef r) (remove_socket k l)
unfolding remove_socket
refs-remove r k [] h = tt
refs-remove r k (s ∷ l) (p, h) = ground (arith, refs-remove r k l h)

pub length-remove :
    (k : ℕ) (l : List Timer) {t : Timer}
    → find_timer k l ≡ some t
    → length (remove_timer k l) + 1 ≡ length l
unfolding find_timer remove_timer
length-remove k [] e = cc
length-remove k (u ∷ l) {t} e = ground (arith, length-remove k l {t = t})

pub retries-remove :
    (r : Option ℕ) (k : ℕ) (l : List Timer) → All (IsRetry r) l → All (IsRetry r) (remove_timer k l)
unfolding remove_timer
retries-remove r k [] h = tt
retries-remove r k (t ∷ l) (p, h) = ground (arith, retries-remove r k l h)
