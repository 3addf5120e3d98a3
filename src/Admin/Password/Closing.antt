-- ===== src/Admin/Password/Closing.antt =====
-- What the password modal keeps and sends, over all events.
use voting_app.Prelude.{
  Bool, Text, ltb, length, not, same_text, [], ◌≡◌, Bool-cases, inl, arith, inr, if◌then◌else◌,
  refl, All, subst, sym, ◌≤◌, List, ◌∷◌, ℕ, false, true,
}
use voting_app.Admin.Password.{
  opens, closes, toggle_old, toggle_new, toggle_confirm, edit_old, edit_new, edit_confirm, answer,
  submits, Password, Event, step, run, mounted, handle, enabled, answers, handle_submit,
  handle_close, submit_answered,
}
use voting_app.Api.{Request, Response, change_password, failed, ok}
use voting_app.Toasts.{Provider}

-- While the modal is closed it holds no password; while it is busy it is open, with one change in
-- flight, whose start saw it not busy.
abbrev Sound : Password → Type 0
Sound p =
    (p.is_open ≡ false → (p.pw_old ≡ []) × (p.pw_new ≡ []) × (p.pw_confirm ≡ []))
    × (p.pending ≡ (if p.pw_loading then false ∷ [] else []))
    × (p.pw_loading ≡ true → p.is_open ≡ true)

handle-Sound : (p : Password) (e : Event) → enabled p e ≡ true → Sound p → Sound (handle p e)
unfolding handle enabled handle_close handle_submit submit_answered
handle-Sound p e a h = ground arith

step-Sound : (p : Password) (e : Event) → Sound p → Sound (step p e)
unfolding step
step-Sound p e h = elim (Bool-cases (enabled p e)) [
  | inl a ↦ rw a (handle-Sound p e a h)
  | inr a ↦ rw a h
]

run-Sound : (p : Password) (es : List Event) → Sound p → Sound (run p es)
unfolding run
run-Sound p [] h = h
run-Sound p (e ∷ es) h = run-Sound (step p e) es (step-Sound p e h)

mounted-Sound : (t : Provider) → Sound (mounted t)
unfolding mounted
mounted-Sound t = (λ e. (refl, refl, refl), refl, λ e. cc)

-- No password stays behind: whenever the modal is closed, its three fields are empty.
pub closed_cleared :
    (t : Provider) (es : List Event)
    → (run (mounted t) es).is_open ≡ false
    → ((run (mounted t) es).pw_old ≡ [])
      × ((run (mounted t) es).pw_new ≡ [])
      × ((run (mounted t) es).pw_confirm ≡ [])
closed_cleared t es = (run-Sound (mounted t) es (mounted-Sound t)).0

success_of :
    (p : Password) (id : ℕ)
    → Sound p
    → enabled p (answers id (ok tt)) ≡ true
    → ((handle p (answers id (ok tt))).is_open ≡ false)
      × ((handle p (answers id (ok tt))).pw_loading ≡ false)
unfolding handle enabled handle_close submit_answered
success_of p id h a = ground arith

-- A successful change closes the modal: although `handleClose` does nothing while a change is in
-- flight, the success of a change in flight closes the modal and ends the loading.
pub success_closes :
    (t : Provider) (es : List Event) (id : ℕ)
    → enabled (run (mounted t) es) (answers id (ok tt)) ≡ true
    → ((step (run (mounted t) es) (answers id (ok tt))).is_open ≡ false)
      × ((step (run (mounted t) es) (answers id (ok tt))).pw_loading ≡ false)
unfolding step
success_closes t es id a =
    rw a (success_of (run (mounted t) es) id (run-Sound (mounted t) es (mounted-Sound t)) a)

-- A change of the password, to one of at least ten characters.
abbrev pub IsProper : Request → Type 0
IsProper r = (o n : Text) × (r ≡ change_password o n) × (10 ≤ length n)

submit-IsProper :
    (id : ℕ) (p : Password) → All IsProper p.sent → All IsProper (handle_submit id p).sent
unfolding handle_submit
submit-IsProper id p h = elim (Bool-cases (ltb (length p.pw_new) 10)) [
  | inl a ↦ rw a h
  | inr a ↦ rw a (elim (Bool-cases (not (same_text p.pw_new p.pw_confirm))) [
    | inl b ↦ rw b h
    | inr b ↦ rw b ((p.pw_old, p.pw_new, refl, ground arith), h)
  ])
]

close-sent : (b : Bool) (p : Password) → (handle_close b p).sent ≡ p.sent
unfolding handle_close
close-sent true p = refl
close-sent false p = refl

answer-sent :
    (l : List Bool) (id : ℕ) (r : Response (Unit {0})) (p : Password)
    → (answer l id r p).sent ≡ p.sent
unfolding answer submit_answered handle_close
answer-sent [] id r p = refl
answer-sent (true ∷ l) id (ok u) p = refl
answer-sent (false ∷ l) id (ok u) p = refl
answer-sent (b ∷ l) id (failed f) p = refl

handle-IsProper : (p : Password) (e : Event) → All IsProper p.sent → All IsProper (handle p e).sent
unfolding handle
handle-IsProper p opens h = h
handle-IsProper p closes h = subst (All IsProper) (sym (close-sent p.pw_loading p)) h
handle-IsProper p toggle_old h = h
handle-IsProper p toggle_new h = h
handle-IsProper p toggle_confirm h = h
handle-IsProper p (edit_old t) h = h
handle-IsProper p (edit_new t) h = h
handle-IsProper p (edit_confirm t) h = h
handle-IsProper p (submits id) h = submit-IsProper id p h
handle-IsProper p (answers id r) h = subst (All IsProper) (sym (answer-sent p.pending id r p)) h

step-IsProper : (p : Password) (e : Event) → All IsProper p.sent → All IsProper (step p e).sent
unfolding step
step-IsProper p e h = elim (Bool-cases (enabled p e)) [
  | inl a ↦ rw a (handle-IsProper p e h)
  | inr a ↦ rw a h
]

run-IsProper : (p : Password) (es : List Event) → All IsProper p.sent → All IsProper (run p es).sent
unfolding run
run-IsProper p [] h = h
run-IsProper p (e ∷ es) h = run-IsProper (step p e) es (step-IsProper p e h)

mounted-IsProper : (t : Provider) → All IsProper (mounted t).sent
unfolding mounted
mounted-IsProper t = tt

-- Each request that the modal ever sends changes the password to one of at least ten characters.
pub changes-IsProper : (t : Provider) (es : List Event) → All IsProper (run (mounted t) es).sent
changes-IsProper t es = run-IsProper (mounted t) es (mounted-IsProper t)
