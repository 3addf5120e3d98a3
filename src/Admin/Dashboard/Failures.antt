-- ===== src/Admin/Dashboard/Failures.antt =====
-- What a failed write of the dashboard leaves.
use voting_app.Prelude.{◌≡◌, ℕ, is_some, true, ◌+◌, length, Bool}
use voting_app.Admin.Dashboard.{
  Event, enabled, add_answer, update_answer, delete_answer, submit_add, submit_edit, confirm_delete,
}
use voting_app.Admin.Dashboard.Handlers.{Dashboard, FormValues}
use voting_app.Api.{Failure, failed}

-- The writes of the page.
pub data Write : Type 0 where
  to_add to_update to_delete : Write

abbrev pub fails : Write → ℕ → Failure → Event
fails to_add id f = add_answer id (failed f)
fails to_update id f = update_answer id (failed f)
fails to_delete id f = delete_answer id (failed f)

-- The administrator's event that starts the write, with the values of a form where it has one.
abbrev pub starts : Write → FormValues → Event
starts to_add v = submit_add v
starts to_update v = submit_edit v
starts to_delete v = confirm_delete

-- Whether what the write is about is still open on the page.
abbrev pub is_open_for : Write → Dashboard → Bool
is_open_for to_add d = true
is_open_for to_update d = is_some d.edit_target
is_open_for to_delete d = is_some d.delete_target

-- How many writes of the kind are in flight, with the lists asked for after them.
abbrev pub in_flight : Write → Dashboard → ℕ
in_flight to_add d = d.adds + d.updates + d.add_lists + d.update_lists
in_flight to_update d = d.adds + d.updates + d.add_lists + d.update_lists
in_flight to_delete d = length d.deletes + d.delete_lists

-- The write can be started again where it is still open, none is in flight, and nothing was sent or
-- taken off the page.
abbrev pub Recovered : Write → FormValues → Dashboard → Dashboard → Type 0
Recovered w v d e =
    (enabled e (starts w v) ≡ is_open_for w d)
    × (in_flight w e ≡ 0)
    × (e.candidates ≡ d.candidates)
    × (e.edit_target ≡ d.edit_target)
    × (e.delete_target ≡ d.delete_target)
    × (e.sent ≡ d.sent)
