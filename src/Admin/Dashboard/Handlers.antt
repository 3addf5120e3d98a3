-- ===== src/Admin/Dashboard/Handlers.antt =====
-- FrontEnd/src/pages/admin/Dashboard.tsx: the page's state, and its handlers up to their `await` and
-- from the answer on.
use Prim.Native.String.{◌++◌ as ◌+++◌}
use voting_app.Prelude.{
  ℕ, ◌+◌, ◌-◌, Option, none, some, List, ◌∷◌, Text, String, Bool, true, false, if◌then◌else◌,
}
use voting_app.Api.{
  Request, Response, ok, failed, Failure, message_of, has_status, get_all, or_empty, add_candidate,
  update_candidate, delete_candidate,
}
use voting_app.Toasts.{Provider, toast_success, toast_error}
use voting_app.Types.{Candidate}

-- The handler that waits for the list; `nobody` is the effect.
pub data Caller : Type 0 where
  nobody adding updating removing : Caller

pub record FormValues : Type 0 where
  pub name : Text
  pub description : Text
  pub image_file : Option ℕ

pub record Dashboard : Type 0 where
  pub candidates : List Candidate
  pub loading : Bool
  pub form_loading : Bool
  pub edit_target : Option Candidate
  pub delete_target : Option Candidate
  pub delete_loading : Bool
  pub change_pw_open : Bool
  pub provider : Provider
  -- In flight: lists asked for, by their caller, candidates added and updated, and deletions.
  pub lists : ℕ
  pub add_lists : ℕ
  pub update_lists : ℕ
  pub delete_lists : ℕ
  pub adds : ℕ
  pub updates : ℕ
  pub deletes : List Candidate
  pub sent : List Request

-- `fetchCandidates` up to its `await`.
unfoldable pub fetch_candidates : Caller → Dashboard → Dashboard
fetch_candidates nobody d = record d { lists = d.lists + 1; sent = get_all ∷ d.sent }
fetch_candidates adding d = record d { add_lists = d.add_lists + 1; sent = get_all ∷ d.sent }
fetch_candidates updating d = record d {
  update_lists = d.update_lists + 1;
  sent = get_all ∷ d.sent;
}
fetch_candidates removing d = record d {
  delete_lists = d.delete_lists + 1;
  sent = get_all ∷ d.sent;
}

-- The `finally` of the caller.
abbrev pub finish : Caller → Dashboard → Dashboard
finish nobody d = record d { lists = d.lists - 1 }
finish adding d = record d { add_lists = d.add_lists - 1; form_loading = false }
finish updating d = record d { update_lists = d.update_lists - 1; form_loading = false }
finish removing d = record d { delete_lists = d.delete_lists - 1; delete_loading = false }

abbrev pub set_list : ℕ → Response (List Candidate) → Dashboard → Dashboard
set_list id (ok l) d = record d { candidates = l; loading = false }
set_list id (failed f) d = record d {
  provider = toast_error id "Failed to load candidates." none d.provider;
  loading = false;
}

-- `fetchCandidates` from the answer on, with the rest of its caller.
unfoldable pub candidates_fetched :
    Caller → ℕ → Response (Option (List Candidate)) → Dashboard → Dashboard
unfolding or_empty
candidates_fetched caller id r d = finish caller (set_list id (or_empty r) d)

unfoldable pub handle_add : FormValues → Dashboard → Dashboard
handle_add v d = record d {
  form_loading = true;
  adds = d.adds + 1;
  sent = add_candidate v.name v.description v.image_file ∷ d.sent;
}

unfoldable pub added : ℕ → Response (Unit {0}) → Dashboard → Dashboard
unfolding fetch_candidates
added id (ok u) d = fetch_candidates adding (record d {
  adds = d.adds - 1;
  provider = toast_success id "Candidate added successfully!" none d.provider;
})
added id (failed f) d = record d {
  adds = d.adds - 1;
  provider = toast_error id (message_of "Failed to add candidate." f) none d.provider;
  form_loading = false;
}

abbrev pub update_target : Option Candidate → FormValues → Dashboard → Dashboard
update_target none v d = d
update_target (some c) v d = record d {
  form_loading = true;
  updates = d.updates + 1;
  sent = update_candidate c.id v.name v.description v.image_file ∷ d.sent;
}

unfoldable pub handle_update : FormValues → Dashboard → Dashboard
handle_update v d = update_target d.edit_target v d

unfoldable pub updated : ℕ → Response (Unit {0}) → Dashboard → Dashboard
unfolding fetch_candidates
updated id (ok u) d = fetch_candidates updating (record d {
  updates = d.updates - 1;
  provider = toast_success id "Candidate updated successfully!" none d.provider;
  edit_target = none;
})
updated id (failed f) d = record d {
  updates = d.updates - 1;
  provider = toast_error id (message_of "Failed to update candidate." f) none d.provider;
  form_loading = false;
}

unfoldable pub handle_delete : Candidate → Dashboard → Dashboard
handle_delete c d = record d {
  delete_loading = true;
  deletes = c ∷ d.deletes;
  sent = delete_candidate c.id ∷ d.sent;
}

-- The message of a deletion that failed.
unfoldable pub delete_message : Failure → String
delete_message f =
    if has_status 409 f
    then "Cannot delete: this candidate already has votes."
    else message_of "Failed to delete candidate." f

-- The answer to the deletion of `c`; `rest` is what is still in flight.
unfoldable pub deleted :
    Candidate → List Candidate → ℕ → Response (Unit {0}) → Dashboard → Dashboard
unfolding fetch_candidates
deleted c rest id (ok u) d = fetch_candidates removing (record d {
  deletes = rest;
  provider = toast_success id ("\"" +++ (c.name +++ "\" deleted successfully.")) none d.provider;
  delete_target = none;
})
deleted c rest id (failed f) d = record d {
  deletes = rest;
  provider = toast_error id (delete_message f) none d.provider;
  delete_loading = false;
}
