-- ===== src/Toasts/Bounds.antt =====
-- How many toasts are on the screen, and which.
use native.Mathlib.Nat.{zero-add, suc-add}
use native.Mathlib.Numerals.{towards_suc}
use voting_app.Prelude.{
  ℕ, zero, suc, ◌+◌, ◌-◌, ◌≤◌, ◌≡◌, refl, sym, ap, ◌∙◌, ◌++◌, append-nil, append_assoc, List, [],
  ◌∷◌, length, drop, slice_last, length-append, length-drop, length-keep, arith, none, not,
}
use voting_app.Toasts.{
  Provider, mounted, Event, posted, dismiss, elapse, step, run, add_toast, has_id,
}
use voting_app.Types.{Toast}

step_bound : (p : Provider) (e : Event) → length p.toasts ≤ 5 → length (step p e).toasts ≤ 5
unfolding step
step_bound p (posted id message type duration) h =
    omega (arith, length-append {0}, length-drop {0} (length p.toasts - 4) p.toasts)
step_bound p (dismiss id) h = omega (arith, length-keep (λ t. not (has_id id t)) p.toasts)
step_bound p (elapse id) h = ground (arith, length-keep (λ t. not (has_id id t)) p.toasts)

run_bound : (p : Provider) (es : List Event) → length p.toasts ≤ 5 → length (run p es).toasts ≤ 5
unfolding run
run_bound p [] h = h
run_bound p (e ∷ es) h = run_bound (step p e) es (step_bound p e h)

-- Whatever toasts are shown, dismissed and expire, in any order, at most five are on the screen.
pub screen_bounded : (es : List Event) → length (run mounted es).toasts ≤ 5
unfolding mounted
screen_bounded es = run_bound mounted es (omega arith)

pub drop-append_le {ℓ} :
    {A : Type ℓ} (n : ℕ) (xs ys : List A) → n ≤ length xs → drop n (xs ++ ys) ≡ drop n xs ++ ys
drop-append_le zero xs ys h = refl
drop-append_le (suc n) [] ys h = elim h [ ]
drop-append_le (suc n) (x ∷ xs) ys h = drop-append_le n xs ys (omega arith)

drop-drop {ℓ} : {A : Type ℓ} (m n : ℕ) (xs : List A) → drop m (drop n xs) ≡ drop (n + m) xs
drop-drop m zero xs = rw zero-add
drop-drop zero (suc n) [] = simp towards_suc
drop-drop (suc m) (suc n) [] = rw suc-add
drop-drop m (suc n) (x ∷ xs) = rw suc-add (drop-drop m n xs)

slice_last-slice_last {ℓ} :
    {A : Type ℓ} (xs : List A) → slice_last 4 (slice_last 5 xs) ≡ slice_last 4 xs
slice_last-slice_last xs =
    drop-drop _ (length xs - 5) xs
    ∙ ap (λ (k : ℕ). drop k xs) (omega (arith, length-drop (length xs - 5) xs))

slice_last-concat {ℓ} :
    {A : Type ℓ} (xs : List A) (x : A) → slice_last 5 (xs ++ x ∷ []) ≡ slice_last 4 xs ++ x ∷ []
slice_last-concat xs x =
    ap (λ (k : ℕ). drop k (xs ++ x ∷ [])) (omega (arith, length-append xs (x ∷ [])))
    ∙ drop-append_le (length xs - 4) xs (x ∷ []) (omega arith)

-- The provider after the toasts `ts` are posted in this order, with the default duration.
pub post_all : List Toast → Provider → Provider
post_all [] p = p
post_all (t ∷ ts) p = post_all ts (add_toast t.id t.message t.type none p)

post_all_from :
    (h ts : List Toast) (p : Provider)
    → p.toasts ≡ slice_last 5 h
    → (post_all ts p).toasts ≡ slice_last 5 (h ++ ts)
unfolding post_all add_toast
post_all_from h [] p e = rw append-nil e
post_all_from h (t ∷ ts) p e = rw (sym (append_assoc h (t ∷ []) ts)) (
    post_all_from (h ++ t ∷ []) ts _ (
      ap (λ (l : List Toast). slice_last 4 l ++ t ∷ []) e
      ∙ ap (λ (l : List Toast). l ++ t ∷ []) (slice_last-slice_last h)
      ∙ sym (slice_last-concat h t)))

-- Posting a sequence of toasts on an empty screen shows the last five of them, in order.
pub post_all-last_five : (ts : List Toast) → (post_all ts mounted).toasts ≡ slice_last 5 ts
unfolding mounted
post_all-last_five ts = post_all_from [] ts mounted refl
