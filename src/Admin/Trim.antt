-- ===== src/Admin/Trim.antt =====
-- `trim` of JavaScript strings, which FrontEnd/src/components/admin/EmailDomainsCard.tsx and
-- FrontEnd/src/components/admin/CandidateForm.tsx call.
use voting_app.Prelude.{
  ℕ, Bool, Text, leb, ◌∷◌, if◌then◌else◌, ◌≡◌, ◌&&◌, false, ◌||◌, ◌==◌, [], true, ap, ◌∙◌, refl,
}

-- The white space and line ends that `trim` removes.
abbrev pub is_space : ℕ → Bool
is_space c =
    (leb 9 c && leb c 13)
    || (c == 32
        || (c == 160
            || (c == 5760
                || ((leb 8192 c && leb c 8202)
                    || (c == 8232
                        || (c == 8233
                            || (c == 8239 || (c == 8287 || (c == 12288 || c == 65279)))))))))

trim_start : Text → Text
trim_start [] = []
trim_start (c ∷ s) = if is_space c then trim_start s else c ∷ s

abbrev or_cell : Bool → ℕ → Text → Text
or_cell b c [] = if b then [] else c ∷ []
or_cell b c (d ∷ s) = c ∷ d ∷ s

trim_end : Text → Text
trim_end [] = []
trim_end (c ∷ s) = or_cell (is_space c) c (trim_end s)

unfoldable pub trim : Text → Text
unfolding trim_start trim_end
trim s = trim_end (trim_start s)

-- The first character, if any, is none that is trimmed.
abbrev pub Starts : Text → Type 0
Starts [] = Unit
Starts (c ∷ s) = is_space c ≡ false

Starts-if :
    (b : Bool) (c : ℕ) (s r : Text) → is_space c ≡ b → Starts r → Starts (if b then r else c ∷ s)
Starts-if true c s r e h = h
Starts-if false c s r e h = e

trim_start-Starts : (s : Text) → Starts (trim_start s)
unfolding trim_start
trim_start-Starts [] = tt
trim_start-Starts (c ∷ s) = Starts-if (is_space c) c s (trim_start s) refl (trim_start-Starts s)

-- The same of the last one.
abbrev pub Ends : Text → Type 0
Ends [] = Unit
Ends (c ∷ []) = is_space c ≡ false
Ends (c ∷ d ∷ s) = Ends (d ∷ s)

Ends-if : (b : Bool) (c : ℕ) → is_space c ≡ b → Ends (if b then [] else c ∷ [])
Ends-if true c e = tt
Ends-if false c e = e

or_cell-Ends : (c : ℕ) (s : Text) → Ends s → Ends (or_cell (is_space c) c s)
or_cell-Ends c [] h = Ends-if (is_space c) c refl
or_cell-Ends c (d ∷ s) h = h

trim_end-Ends : (s : Text) → Ends (trim_end s)
unfolding trim_end
trim_end-Ends [] = tt
trim_end-Ends (c ∷ s) = or_cell-Ends c (trim_end s) (trim_end-Ends s)

or_cell-Starts : (b : Bool) (c : ℕ) (s : Text) → is_space c ≡ false → Starts (or_cell b c s)
or_cell-Starts true c [] h = tt
or_cell-Starts false c [] h = h
or_cell-Starts b c (d ∷ s) h = h

trim_end-Starts : (s : Text) → Starts s → Starts (trim_end s)
unfolding trim_end
trim_end-Starts [] h = tt
trim_end-Starts (c ∷ s) h = or_cell-Starts (is_space c) c (trim_end s) h

trim_start-eq : (s : Text) → Starts s → trim_start s ≡ s
unfolding trim_start
trim_start-eq [] h = refl
trim_start-eq (c ∷ s) h = rw h refl

trim_end-eq : (s : Text) → Ends s → trim_end s ≡ s
unfolding trim_end
trim_end-eq [] h = refl
trim_end-eq (c ∷ []) h = rw h refl
trim_end-eq (c ∷ d ∷ s) h = rw (trim_end-eq (d ∷ s) h) refl

-- What is trimmed has no white space at either end.
pub trim-bare : (s : Text) → Starts (trim s) × Ends (trim s)
unfolding trim
trim-bare s = (trim_end-Starts (trim_start s) (trim_start-Starts s), trim_end-Ends (trim_start s))

-- Trimming again changes nothing.
pub trim-trim : (s : Text) → trim (trim s) ≡ trim s
unfolding trim
trim-trim s =
    let (a, b) = trim-bare s in ap trim_end (trim_start-eq (trim s) a) ∙ trim_end-eq (trim s) b
