-- ===== src/Decimal.antt =====
-- JavaScript's decimal texts of natural numbers: `String(n)`, `${n}`, `n.toString()` and `Number(s)`.
use voting_app.Prelude.{
  append-nil, sym, ◌++◌, ℕ, zero, suc, ◌+◌, ◌-◌, ◌*◌, ◌/◌, ◌%◌, ◌≤◌, ◌<◌, ◌≡◌, refl, ◌∙◌, ap, Bool,
  false, ◌&&◌, ltb, leb, if◌then◌else◌, Option, none, some, [], ◌∷◌, Text, arith, Bool-cases, inl,
  inr, is_empty,
}

abbrev pub is_digit : ℕ → Bool
is_digit c = leb b'0' c && leb c b'9'

abbrev pub digit : ℕ → ℕ
digit d = b'0' + d

-- The digits of `n` in front of `acc`.
show_from : ℕ → ℕ → Text → Text
show_from zero n acc = digit (n % 10) ∷ acc
show_from (suc f) n acc =
    let more = show_from f (n / 10) (digit (n % 10) ∷ acc) in
    if ltb n 10 then digit n ∷ acc else more

-- `String(n)`. The fuel `n` is enough, since the number of digits is at most `n + 1`.
unfoldable pub show : ℕ → Text
unfolding show_from
show n = show_from n n []

read_from : ℕ → Text → Option ℕ
read_from acc [] = some acc
read_from acc (c ∷ s) = if is_digit c then read_from (acc * 10 + (c - b'0')) s else none

-- `Number(s)` for a text of decimal digits; `none` stands for what it makes of any other text.
unfoldable pub number : Text → Option ℕ
unfolding read_from
number s = read_from 0 s

read-digit : (a d : ℕ) (s : Text) → d < 10 → read_from a (digit d ∷ s) ≡ read_from (a * 10 + d) s
unfolding read_from
read-digit a d s h = ground (arith, ap (λ (k : ℕ). read_from k s) (digit_value a d))
  where
    digit_value : (a d : ℕ) → a * 10 + (digit d - b'0') ≡ a * 10 + d
    digit_value a d = omega arith

-- A reader that takes a digit `d` at the value `a` to `a * 10 + d` reads the text of `n` as `n`,
-- whatever follows.
module _ {ℓ} {X : Type ℓ} (reader : ℕ → Text → X) where
  read_from_start :
      ((a d : ℕ) (s : Text) → d < 10 → reader a (digit d ∷ s) ≡ reader (a * 10 + d) s)
      → (f n : ℕ) (acc : Text) → n ≤ f
      → reader 0 (show_from f n acc) ≡ reader n acc
  unfolding show_from
  read_from_start law zero n acc h =
      law 0 (n % 10) acc (omega arith) ∙ ap (λ (k : ℕ). reader k acc) (omega arith)
  read_from_start law (suc f) n acc h = elim (Bool-cases (ltb n 10)) [
    | inl e ↦ rw e (law 0 n acc (ground arith) ∙ ap (λ (k : ℕ). reader k acc) (omega arith))
    | inr e ↦ rw e (
        read_from_start law f (n / 10) (digit (n % 10) ∷ acc) (ground arith)
        ∙ law (n / 10) (n % 10) acc (omega arith)
        ∙ ap (λ (k : ℕ). reader k acc) (omega arith))
  ]

show_from-append : (f n : ℕ) (acc r : Text) → show_from f n acc ++ r ≡ show_from f n (acc ++ r)
unfolding show_from
show_from-append zero n acc r = refl
show_from-append (suc f) n acc r =
    ground (arith, show_from-append f (n / 10) (digit (n % 10) ∷ acc) r)

pub read-show {ℓ} :
    {X : Type ℓ} (reader : ℕ → Text → X)
    → ((a d : ℕ) (s : Text) → d < 10 → reader a (digit d ∷ s) ≡ reader (a * 10 + d) s)
    → (n : ℕ) (r : Text) → reader 0 (show n ++ r) ≡ reader n r
unfolding show
read-show reader law n r =
    ap (reader 0) (show_from-append n n [] r) ∙ read_from_start reader law n n r (omega arith)

-- Reading back the decimal text of a number gives the number.
pub number-show : (n : ℕ) → number (show n) ≡ some n
unfolding number
number-show n =
    ap (read_from 0) (sym (append-nil (show n))) ∙ read-show read_from read-digit n [] ∙ read_nil n
  where
    read_nil : (n : ℕ) → read_from n [] ≡ some n
    read_nil n = refl

-- Different numbers have different texts.
pub show-injective : (m n : ℕ) → show m ≡ show n → m ≡ n
show-injective m n e = cc (number-show m, number-show n, ap number e)

show_from-ne-nil : (f n : ℕ) (acc : Text) → is_empty (show_from f n acc) ≡ false
unfolding show_from
show_from-ne-nil zero n acc = refl
show_from-ne-nil (suc f) n acc = ground (arith, show_from-ne-nil f (n / 10) (digit (n % 10) ∷ acc))

-- The text of a number is not empty.
pub is_empty-show : (n : ℕ) → is_empty (show n) ≡ false
unfolding show
is_empty-show n = show_from-ne-nil n n []

show_test : show 1070 ≡ b'1' ∷ b'0' ∷ b'7' ∷ b'0' ∷ []
unfolding show
show_test = refl
