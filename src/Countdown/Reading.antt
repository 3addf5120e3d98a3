-- ===== src/Countdown/Reading.antt =====
-- The countdown says how many whole seconds are left.
use native.Mathlib.Nat.{add-zero}
use voting_app.Prelude.{
  ltb, none, some, leb, ℕ, Text, ◌∷◌, if◌then◌else◌, ◌*◌, ◌+◌, ◌-◌, ◌==◌, [], ◌<◌, ◌++◌, ◌≡◌, arith,
  ap₂, ◌/◌, ◌∙◌, refl, false, Bool, ap, Bool-cases, inl, inr, ◌≤◌, ◌⊎◌,
}
use voting_app.Countdown.{part, days, pad_start, hours, minutes, seconds, format, tick}
use voting_app.Decimal.{is_digit, show, digit, read-show}

-- The seconds that a unit's letter stands for.
abbrev weight : ℕ → ℕ
weight c =
    if c == b'd'
    then 86400
    else if c == b'h'
    then 3600
    else if c == b'm'
    then 60
    else if c == b's'
    then 1
    else 0

-- The digits of a part up to the character `c`, which a unit's letter ends.
abbrev next : ℕ → ℕ → ℕ
next n c = if is_digit c then n * 10 + (c - b'0') else 0

-- The seconds of the parts read so far, and the digits of the part that is being read.
read : ℕ → ℕ → Text → ℕ
read total n [] = total
read total n (c ∷ s) = read (total + n * weight c) (next n c) s

-- The seconds that a text such as `1d 2h 03m 04s` stands for.
pub seconds_of : Text → ℕ
seconds_of s = read 0 0 s

read-digit :
    (total a d : ℕ) (s : Text) → d < 10 → read total a (digit d ∷ s) ≡ read total (a * 10 + d) s
unfolding read
read-digit total a d s h =
    ap₂ (λ (t n : ℕ). read t n s) (weight-digit total a d h) (next-digit a d h)
  where
    weight-digit : (total a d : ℕ) → d < 10 → total + a * weight (digit d) ≡ total
    weight-digit total a d h = ground arith

    next-digit : (a d : ℕ) → d < 10 → next a (digit d) ≡ a * 10 + d
    next-digit a d h = ground arith

read-pad : (total : ℕ) (t r : Text) → read total 0 (pad_start t ++ r) ≡ read total 0 (t ++ r)
read-pad total [] r = read-digit total 0 0 _ (omega arith) ∙ read-digit total 0 0 r (omega arith)
read-pad total (c ∷ []) r = read-digit total 0 0 (c ∷ r) (omega arith)
read-pad total (c ∷ d ∷ s) r = refl

read-number : (total k : ℕ) (r : Text) → read total 0 (show k ++ r) ≡ read total k r
read-number total k r = read-show (read total) (read-digit total) k r

-- A number, its unit and the space behind it add the seconds of that part.
module _ (unit w : ℕ) (weighs : weight unit ≡ w) (ends : is_digit unit ≡ false) where
  read-unit : (total n : ℕ) (r : Text) → read total n (unit ∷ r) ≡ read (total + n * w) 0 r
  unfolding read
  read-unit total n r =
      ap₂ (λ (v : ℕ) (b : Bool). read (total + n * v) (if b then n * 10 + (unit - b'0') else 0) r)
        weighs ends

  read-space : (total n : ℕ) (r : Text) → read total n (unit ∷ b' ' ∷ r) ≡ read (total + n * w) 0 r
  unfolding read
  read-space total n r =
      read-unit total n (b' ' ∷ r) ∙ ap (λ (t : ℕ). read t 0 r) (add-zero (total + n * w))

  read-part :
      (total k : ℕ) (r : Text)
      → read total 0 (part (show k) unit (b' ' ∷ r)) ≡ read (total + k * w) 0 r
  read-part total k r = read-number total k (unit ∷ b' ' ∷ r) ∙ read-space total k r

  read-padded :
      (total k : ℕ) (r : Text)
      → read total 0 (part (pad_start (show k)) unit (b' ' ∷ r)) ≡ read (total + k * w) 0 r
  read-padded total k r = read-pad total (show k) (unit ∷ b' ' ∷ r) ∙ read-part total k r

read-last : (total k : ℕ) → read total 0 (part (pad_start (show k)) b's' []) ≡ total + k
unfolding read
read-last total k =
    read-pad total (show k) (b's' ∷ []) ∙ read-number total k (b's' ∷ []) ∙ omega arith

read_minutes :
    (total m s : ℕ)
    → read total 0 (part (pad_start (show m)) b'm' (b' ' ∷ part (pad_start (show s)) b's' []))
      ≡ total + m * 60 + s
read_minutes total m s = read-padded b'm' 60 refl refl total m _ ∙ read-last (total + m * 60) s

read_hours :
    (total h m s : ℕ)
    → read total 0 (
        part
          (show h)
          b'h'
          (b' ' ∷ part (pad_start (show m)) b'm' (b' ' ∷ part (pad_start (show s)) b's' [])))
      ≡ total + h * 3600 + m * 60 + s
read_hours total h m s =
    read-part b'h' 3600 refl refl total h _ ∙ read_minutes (total + h * 3600) m s

zero_of_ltb : (n : ℕ) → ltb 0 n ≡ false → n ≡ 0
zero_of_ltb n e = ground arith

-- Read as days, hours, minutes and seconds, the text of the countdown is the number of whole seconds
-- left, in each of its three forms.
pub seconds_of-format : (diff : ℕ) → seconds_of (format diff) ≡ diff / 1000
unfolding format seconds_of
seconds_of-format diff = elim (Bool-cases (ltb 0 (days diff))) [
  | inl d ↦ rw d (
      read-part b'd' 86400 refl refl 0 (days diff) _
      ∙ read_hours (0 + days diff * 86400) (hours diff) (minutes diff) (seconds diff)
      ∙ omega arith)
  | inr d ↦
      let no_days = zero_of_ltb (days diff) d in
      elim (Bool-cases (ltb 0 (hours diff))) [
        | inl h ↦ rw (d, h) (read_hours 0 (hours diff) (minutes diff) (seconds diff) ∙ omega arith)
        | inr h ↦
            let no_hours = zero_of_ltb (hours diff) h in
            rw (d, h)
              (read-part b'm' 60 refl refl 0 (minutes diff) _
                ∙ read-last (0 + minutes diff * 60) (seconds diff)
                ∙ omega arith)
      ]
]

-- At each time one of the two holds: the end time has come and no countdown is shown, or it has not
-- and the text shown stands for the whole seconds left.
pub tick_shows :
    (ends_at now : ℕ)
    → ((ends_at ≤ now) × (tick ends_at now ≡ none))
      ⊎ ((s : Text) × (now < ends_at)
          × (tick ends_at now ≡ some s)
          × (seconds_of s ≡ (ends_at - now) / 1000))
unfolding tick
tick_shows ends_at now = elim (Bool-cases (leb ends_at now)) [
  | inl e ↦ inl (ground arith, ground arith)
  | inr e ↦
      inr (format (ends_at - now), ground arith, ground arith, seconds_of-format (ends_at - now))
]
