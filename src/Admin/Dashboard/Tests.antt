-- ===== src/Admin/Dashboard/Tests.antt =====
-- Runs of the dashboard at concrete events, and the theorems at them.
use voting_app.Prelude.{
  All, map, ◌≡◌, refl, ◌||◌, [], ◌∷◌, List, none, some, String, is_some, true, false,
}
use voting_app.Admin.Dashboard.{
  Event, step, run, mounted, handle, enabled, open_edit, open_delete, confirm_delete, submit_add,
  submit_edit, cancel_edit, fetched, add_answer, update_answer, delete_answer, delete_target_of,
}
use voting_app.Admin.Dashboard.Deletion.{IsUnvoted, In, all_listed, deletions-IsUnvoted}
use voting_app.Admin.Dashboard.Handlers.{
  nobody, removing, Dashboard, FormValues, handle_add, candidates_fetched, handle_delete,
  fetch_candidates, added, deleted,
}
use voting_app.Admin.Dashboard.Writes.{late_update_closes}
use voting_app.Api.{ok, failed, network, or_empty}
use voting_app.Toasts.{Provider, toast_success, toast_error, add_toast}
use voting_app.Types.{Candidate, Toast}

abbrev ann : Candidate
ann = record {
  id = 1;
  name = "Ann";
  description = [];
  image_path = [];
  total_votes = 2;
  created_at = "";
}

abbrev bob : Candidate
bob = record {
  id = 2;
  name = "Bob";
  description = [];
  image_path = [];
  total_votes = 0;
  created_at = "";
}

abbrev no_toasts : Provider
no_toasts = record { toasts = []; timers = [] }

abbrev eve_values : FormValues
eve_values = record { name = b'E' ∷ []; description = []; image_file = none }

-- A candidate is added without success, one is deleted, and one with votes is not.
abbrev work : List Event
work =
    fetched nobody 1 (ok (some (ann ∷ bob ∷ [])))
    ∷ submit_add eve_values
    ∷ submit_add eve_values
    ∷ add_answer 2 (failed network)
    ∷ open_delete 0
    ∷ confirm_delete
    ∷ open_delete 1
    ∷ confirm_delete
    ∷ delete_answer 3 (ok tt)
    ∷ fetched removing 4 (ok (some (ann ∷ [])))
    ∷ []

messages : Dashboard → List String
messages d = map (λ (t : Toast). t.message) d.provider.toasts

work_test :
    messages (run (mounted no_toasts) work)
    ≡ "Failed to add candidate." ∷ "\"Bob\" deleted successfully." ∷ []
unfolding messages run step mounted handle enabled handle_add handle_delete candidates_fetched added
    deleted fetch_candidates or_empty delete_target_of toast_success toast_error add_toast
work_test = refl

idle_test :
    (run (mounted no_toasts) work).form_loading || (run (mounted no_toasts) work).delete_loading
    ≡ false
unfolding run step mounted handle enabled handle_add handle_delete candidates_fetched added deleted
    fetch_candidates or_empty delete_target_of
idle_test = refl

deletions-IsUnvoted_example :
    All (IsUnvoted (λ c. In c (all_listed work))) (run (mounted no_toasts) work).sent
deletions-IsUnvoted_example = deletions-IsUnvoted no_toasts work

late_update_closes_example :
    let d = run (mounted no_toasts) (fetched nobody 1 (ok (some (ann ∷ bob ∷ []))) ∷ []) in
    let g = run d (open_edit 0 ∷ submit_edit eve_values ∷ cancel_edit ∷ open_edit 1 ∷ []) in
    (is_some g.edit_target ≡ true)
    × (is_some (step g (update_answer 5 (ok tt))).edit_target ≡ false)
unfolding run step mounted handle enabled candidates_fetched fetch_candidates or_empty
late_update_closes_example =
    late_update_closes
      (run (mounted no_toasts) (fetched nobody 1 (ok (some (ann ∷ bob ∷ []))) ∷ [])) eve_values 0 1
      5 refl refl refl refl

abbrev before_deletion : List Event
before_deletion =
    fetched nobody 1 (ok (some (ann ∷ bob ∷ []))) ∷ open_delete 1 ∷ confirm_delete ∷ []
