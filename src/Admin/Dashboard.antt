-- ===== src/Admin/Dashboard.antt =====
-- FrontEnd/src/pages/admin/Dashboard.tsx with its modals, EditCandidateModal.tsx and
-- DeleteConfirmModal.tsx of FrontEnd/src/components/admin: the mounted page, its handlers and the
-- requests in flight. An `async` handler is a function up to its `await` and one from the answer on.
-- The identifier of a toast is an argument.
pub mod Handlers
pub mod Writes
pub mod Failures
pub mod View
pub mod Deletion
mod Tests
use Prim.Native.String.{◌++◌ as ◌+++◌}
use voting_app.Prelude.{
  ℕ, ◌+◌, ◌-◌, ◌==◌, Option, none, some, is_some, List, [], ◌∷◌, Text, String, Bool, true, false,
  not, ◌&&◌, ◌||◌, if◌then◌else◌, is_empty, get_elem?, ltb, get_or_else,
}
use voting_app.Admin.Dashboard.Handlers.{
  Caller, nobody, adding, updating, removing, FormValues, handle_add, handle_delete,
  fetch_candidates, deleted, Dashboard, handle_update, candidates_fetched, added, updated,
}
use voting_app.Api.{
  Request, Response, ok, failed, Failure, message_of, has_status, get_all, or_empty, add_candidate,
  update_candidate, delete_candidate,
}
use voting_app.Toasts.{Provider, toast_success, toast_error}
use voting_app.Types.{Candidate}

pub data Event : Type 0 where
  open_edit open_delete : ℕ → Event  -- on a row
  cancel_edit cancel_delete confirm_delete open_password close_password : Event
  submit_add submit_edit : FormValues → Event
  fetched : Caller → ℕ → Response (Option (List Candidate)) → Event
  add_answer update_answer delete_answer : ℕ → Response (Unit {0}) → Event

-- A row's bin works only without votes.
abbrev pub deletable : Option Candidate → Bool
deletable none = false
deletable (some c) = c.total_votes == 0

-- A form's button: not while it loads, and not without a name; `isCropping` is the form's own.
abbrev submittable : FormValues → Dashboard → Bool
submittable v d = not d.form_loading && not (is_empty v.name)

abbrev pending : Caller → Dashboard → Bool
pending nobody d = ltb 0 d.lists
pending adding d = ltb 0 d.add_lists
pending updating d = ltb 0 d.update_lists
pending removing d = ltb 0 d.delete_lists

-- Whether the page has the event's element, not disabled, or the answer's request is in flight.
unfoldable pub enabled : Dashboard → Event → Bool
enabled d (open_edit i) = not d.loading && is_some (get_elem? d.candidates i)
enabled d (open_delete i) = not d.loading && deletable (get_elem? d.candidates i)
enabled d cancel_edit = is_some d.edit_target
enabled d cancel_delete = is_some d.delete_target && not d.delete_loading
enabled d confirm_delete = is_some d.delete_target && not d.delete_loading
enabled d open_password = true
enabled d close_password = d.change_pw_open
enabled d (submit_add v) = submittable v d
enabled d (submit_edit v) = is_some d.edit_target && submittable v d
enabled d (fetched caller id r) = pending caller d
enabled d (add_answer id r) = ltb 0 d.adds
enabled d (update_answer id r) = ltb 0 d.updates
enabled d (delete_answer id r) = not (is_empty d.deletes)

unfoldable pub delete_target_of : Option Candidate → Dashboard → Dashboard
unfolding handle_delete
delete_target_of none d = d
delete_target_of (some c) d = handle_delete c d

abbrev answer_delete : List Candidate → ℕ → Response (Unit {0}) → Dashboard → Dashboard
unfolding deleted
answer_delete [] id r d = d
answer_delete (c ∷ rest) id r d = deleted c rest id r d

unfoldable pub handle : Dashboard → Event → Dashboard
unfolding handle_add handle_update handle_delete candidates_fetched added updated deleted
handle d (open_edit i) = record d { edit_target = get_elem? d.candidates i }
handle d (open_delete i) = record d { delete_target = get_elem? d.candidates i }
handle d cancel_edit = record d { edit_target = none }
handle d cancel_delete = record d { delete_target = none }
handle d confirm_delete = delete_target_of d.delete_target d
handle d open_password = record d { change_pw_open = true }
handle d close_password = record d { change_pw_open = false }
handle d (submit_add v) = handle_add v d
handle d (submit_edit v) = handle_update v d
handle d (fetched caller id r) = candidates_fetched caller id r d
handle d (add_answer id r) = added id r d
handle d (update_answer id r) = updated id r d
handle d (delete_answer id r) = answer_delete d.deletes id r d

unfoldable pub step : Dashboard → Event → Dashboard
unfolding handle enabled
step d e = if enabled d e then handle d e else d

unfoldable pub run : Dashboard → List Event → Dashboard
run d [] = d
run d (e ∷ es) = run (step d e) es

-- The page after its effect.
unfoldable pub mounted : Provider → Dashboard
unfolding fetch_candidates
mounted p = fetch_candidates nobody (record {
  candidates = [];
  loading = true;
  form_loading = false;
  edit_target = none;
  delete_target = none;
  delete_loading = false;
  change_pw_open = false;
  provider = p;
  lists = 0;
  add_lists = 0;
  update_lists = 0;
  delete_lists = 0;
  adds = 0;
  updates = 0;
  deletes = [];
  sent = [];
})
