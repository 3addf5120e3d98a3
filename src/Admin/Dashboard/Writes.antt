-- ===== src/Admin/Dashboard/Writes.antt =====
-- The dashboard's writes: how many are in flight, and what an answer leaves.
use voting_app.Prelude.{
  [], ◌≡◌, Bool-cases, inl, inr, if◌then◌else◌, length, refl, arith, ◌+◌, List, ◌∷◌, true, ℕ, false,
  is_empty, is_some,
}
use voting_app.Admin.Dashboard.{
  Event, step, run, mounted, handle, enabled, open_edit, cancel_edit, submit_edit, update_answer,
  delete_target_of,
}
use voting_app.Admin.Dashboard.Handlers.{
  Dashboard, FormValues, handle_add, fetch_candidates, handle_update, handle_delete,
  candidates_fetched, added, updated, deleted,
}
use voting_app.Api.{or_empty, ok}
use voting_app.Toasts.{Provider}

-- A form is busy exactly while its write, or the list asked for after it, is in flight; so is the
-- confirmation of a deletion. There is one of them at most.
abbrev pub Single : Dashboard → Type 0
Single d =
    (d.adds + d.updates + d.add_lists + d.update_lists ≡ (if d.form_loading then 1 else 0))
    × (length d.deletes + d.delete_lists ≡ (if d.delete_loading then 1 else 0))

handle-Single : (d : Dashboard) (e : Event) → enabled d e ≡ true → Single d → Single (handle d e)
unfolding handle enabled delete_target_of handle_add handle_update handle_delete candidates_fetched
    added updated deleted fetch_candidates or_empty
handle-Single d e a h = ground arith

step-Single : (d : Dashboard) (e : Event) → Single d → Single (step d e)
unfolding step
step-Single d e h = elim (Bool-cases (enabled d e)) [
  | inl a ↦ rw a (handle-Single d e a h)
  | inr a ↦ rw a h
]

run_keeps : (d : Dashboard) (es : List Event) → Single d → Single (run d es)
unfolding run
run_keeps d [] h = h
run_keeps d (e ∷ es) h = run_keeps (step d e) es (step-Single d e h)

mounted-Single : (p : Provider) → Single (mounted p)
unfolding mounted fetch_candidates
mounted-Single p = (refl, refl)

-- Whatever the administrator does and the server answers, the page's forms have at most one write
-- in flight, counting the list that is asked for after it, and are busy exactly as long; so it is
-- with deletions.
pub run-Single : (p : Provider) (es : List Event) → Single (run (mounted p) es)
run-Single p es = run_keeps (mounted p) es (mounted-Single p)

-- What the code does when an update is answered late: if the administrator left the editor while the
-- update was in flight and opened it on another row, the update's success closes that editor.
pub late_update_closes :
    (d : Dashboard) (v : FormValues) (i j id : ℕ)
    → enabled d (open_edit i) ≡ true
    → enabled d (open_edit j) ≡ true
    → d.form_loading ≡ false
    → is_empty v.name ≡ false
    → let g = run d (open_edit i ∷ submit_edit v ∷ cancel_edit ∷ open_edit j ∷ []) in
      (is_some g.edit_target ≡ true)
      × (is_some (step g (update_answer id (ok tt))).edit_target ≡ false)
unfolding run step handle enabled handle_update updated fetch_candidates
late_update_closes d v i j id a b l n = ground arith
