-- ===== src/Toasts/Expiry.antt =====
-- Every toast goes away by itself.
use voting_app.Prelude.{
  ℕ, ◌≡◌, refl, ◌++◌, List, [], ◌∷◌, keep, slice_last, any, map, not, All, All-append, All-drop,
  All-keep, length, ◌-◌, ◌==◌, true, false, arith, ◌||◌, Bool, Bool-cases, inl, inr, ==-refl,
}
use voting_app.Toasts.{
  Provider, Timer, mounted, Event, posted, dismiss, elapse, step, run, has_id, aims_at,
}
use voting_app.Types.{Toast}

-- A timer that will remove the toast is pending.
abbrev IsTimed : List Timer → Toast → Type 0
IsTimed ts t = any (aims_at t.id) ts ≡ true

-- Every toast on the screen is timed.
abbrev pub IsCovered : Provider → Type 0
IsCovered p = All (IsTimed p.timers) p.toasts

any-append {ℓ} :
    {A : Type ℓ} (q : A → Bool) (xs ys : List A) → any q (xs ++ ys) ≡ (any q xs || any q ys)
any-append q [] ys = refl
any-append q (x ∷ xs) ys = ground (arith, any-append q xs ys)

All-map {ℓ κ μ} :
    {A : Type ℓ} {P : A → Type κ} {Q : A → Type μ} (xs : List A)
    → ((x : A) → P x → Q x)
    → All P xs
    → All Q xs
All-map [] f h = tt
All-map (x ∷ xs) f (p, h) = (f x p, All-map xs f h)

IsTimed-append : (ts us : List Timer) (t : Toast) → IsTimed ts t → IsTimed (ts ++ us) t
IsTimed-append ts us t h = ground (arith, any-append (aims_at t.id) ts us)

any-keep :
    (a i : ℕ) (ts : List Timer)
    → (a == i) ≡ false
    → any (aims_at a) ts ≡ true
    → any (aims_at a) (keep (λ t. not (aims_at i t)) ts) ≡ true
any-keep a i [] n h = h
any-keep a i (t ∷ ts) n h = ground (arith, any-keep a i ts n)

covered_keep :
    (i : ℕ) (ts : List Timer) (xs : List Toast)
    → All (IsTimed ts) xs
    → All (IsTimed (keep (λ t. not (aims_at i t)) ts)) (keep (λ t. not (has_id i t)) xs)
covered_keep i ts [] h = tt
covered_keep i ts (x ∷ xs) (p, h) = elim (Bool-cases (x.id == i)) [
  | inl e ↦ rw e (covered_keep i ts xs h)
  | inr e ↦ rw e (any-keep x.id i ts e p, covered_keep i ts xs h)
]

any_last :
    (i d : ℕ) (ts : List Timer)
    → any (aims_at i) (ts ++ record { target = i; delay = d } ∷ []) ≡ true
any_last i d [] = ground (arith, ==-refl i)
any_last i d (t ∷ ts) = ground (arith, any_last i d ts)

step-IsCovered : (p : Provider) (e : Event) → IsCovered p → IsCovered (step p e)
unfolding step
step-IsCovered p (posted id message type duration) h =
    All-append _ (slice_last 4 p.toasts) _
      (All-map (slice_last 4 p.toasts) (IsTimed-append p.timers _)
        (All-drop _ (length p.toasts - 4) p.toasts h))
      (any_last id _ p.timers, tt)
step-IsCovered p (dismiss id) h = All-keep (IsTimed p.timers) (λ t. not (has_id id t)) p.toasts h
step-IsCovered p (elapse id) h = elim (Bool-cases (any (aims_at id) p.timers)) [
  | inl e ↦ rw e (covered_keep id p.timers p.toasts h)
  | inr e ↦ rw e h
]

steps-IsCovered : (p : Provider) (es : List Event) → IsCovered p → IsCovered (run p es)
unfolding run
steps-IsCovered p [] h = h
steps-IsCovered p (e ∷ es) h = steps-IsCovered (step p e) es (step-IsCovered p e h)

-- Every toast on the screen, whatever happened before, has a timer that will remove it.
pub run-IsCovered : (es : List Event) → IsCovered (run mounted es)
unfolding mounted
run-IsCovered es = steps-IsCovered mounted es tt

-- Each pending timer is aimed at one of these identifiers.
abbrev pub IsWithin : List ℕ → List Timer → Type 0
IsWithin ids ts = All (λ t. any (λ i. t.target == i) ids ≡ true) ts

keep-IsWithin :
    (i : ℕ) (ids : List ℕ) (ts : List Timer)
    → IsWithin (i ∷ ids) ts
    → IsWithin ids (keep (λ t. not (aims_at i t)) ts)
keep-IsWithin i ids [] h = tt
keep-IsWithin i ids (t ∷ ts) (p, h) = elim (Bool-cases (t.target == i)) [
  | inl e ↦ rw e (keep-IsWithin i ids ts h)
  | inr e ↦ rw e (ground arith, keep-IsWithin i ids ts h)
]

keep_none :
    (i : ℕ) (ids : List ℕ) (ts : List Timer)
    → any (aims_at i) ts ≡ false
    → IsWithin (i ∷ ids) ts
    → IsWithin ids ts
keep_none i ids [] e h = tt
keep_none i ids (t ∷ ts) e (p, h) = (ground arith, keep_none i ids ts (ground arith) h)

elapse-IsWithin :
    (p : Provider) (i : ℕ) (ids : List ℕ)
    → IsWithin (i ∷ ids) p.timers
    → IsWithin ids (step p (elapse i)).timers
unfolding step
elapse-IsWithin p i ids h = elim (Bool-cases (any (aims_at i) p.timers)) [
  | inl e ↦ rw e (keep-IsWithin i ids p.timers h)
  | inr e ↦ rw e (keep_none i ids p.timers e h)
]

covered_none : (ts : List Timer) (xs : List Toast) → IsWithin [] ts → All (IsTimed ts) xs → xs ≡ []
covered_none ts [] w h = refl
covered_none [] (x ∷ xs) w (p, h) = cc
covered_none (t ∷ ts) (x ∷ xs) w h = cc (w.0)

elapse_all :
    (p : Provider) (ids : List ℕ)
    → IsCovered p
    → IsWithin ids p.timers
    → (run p (map elapse ids)).toasts ≡ []
unfolding run
elapse_all p [] c w = covered_none p.timers p.toasts w c
elapse_all p (i ∷ ids) c w =
    elapse_all (step p (elapse i)) ids (step-IsCovered p (elapse i) c) (elapse-IsWithin p i ids w)

-- After any history, once every pending timer has elapsed, in whatever order (the order of the list
-- `ids`), the screen is empty.
pub screen_empties :
    (es : List Event) (ids : List ℕ)
    → IsWithin ids (run mounted es).timers
    → (run (run mounted es) (map elapse ids)).toasts ≡ []
screen_empties es ids w = elapse_all (run mounted es) ids (run-IsCovered es) w
