-- ===== src/Admin/Domains.antt =====
-- FrontEnd/src/components/admin/EmailDomainsCard.tsx: the card's state, its handlers and its
-- requests in flight. The identifier of a toast is an argument.
pub mod Writes
mod Tests
use Prim.Native.String.{◌++◌ as ◌+++◌}
use voting_app.Prelude.{
  ℕ, zero, suc, ◌+◌, ◌-◌, ◌==◌, Option, none, some, is_some, List, [], ◌∷◌, Text, String, Bool,
  true, false, not, ◌&&◌, ◌||◌, if◌then◌else◌, is_empty, get_elem?, ltb, leb,
}
use voting_app.Admin.Trim.{trim}
use voting_app.Api.{
  Request, Response, ok, failed, message_of, list_domains, or_empty, get_status, update_domain_mode,
  add_domain, delete_domain,
}
use voting_app.Toasts.{Provider, toast_success, toast_error}
use voting_app.Types.{CustomDomain}

-- The handler that waits for the list; `nobody` is the effect.
pub data Caller : Type 0 where
  nobody adding removing : Caller

pub record Domains : Type 0 where
  pub domains : List CustomDomain
  pub domains_loading : Bool
  pub new_domain : Text
  pub add_loading : Bool
  pub delete_loading_id : Option ℕ
  pub custom_domains_only : Bool
  pub mode_loading : Bool
  pub provider : Provider
  -- In flight: the lists asked for by each caller, domains added and deleted, and modes.
  pub lists : ℕ
  pub add_lists : ℕ
  pub delete_lists : ℕ
  pub adds : ℕ
  pub deletes : List CustomDomain
  pub modes : List Bool
  pub status_pending : Bool
  pub sent : List Request

unfoldable pub fetch_domains : Caller → Domains → Domains
fetch_domains nobody d = record d { lists = d.lists + 1; sent = list_domains ∷ d.sent }
fetch_domains adding d = record d { add_lists = d.add_lists + 1; sent = list_domains ∷ d.sent }
fetch_domains removing d = record d {
  delete_lists = d.delete_lists + 1;
  sent = list_domains ∷ d.sent;
}

abbrev set_list : ℕ → Response (List CustomDomain) → Domains → Domains
set_list id (ok l) d = record d { domains = l; domains_loading = false }
set_list id (failed f) d = record d {
  provider = toast_error id "Failed to load custom domains." none d.provider;
  domains_loading = false;
}

-- The `finally` of the caller.
abbrev finish : Caller → Domains → Domains
finish nobody d = record d { lists = d.lists - 1 }
finish adding d = record d { add_lists = d.add_lists - 1; add_loading = false }
finish removing d = record d { delete_lists = d.delete_lists - 1; delete_loading_id = none }

unfoldable pub domains_fetched :
    Caller → ℕ → Response (Option (List CustomDomain)) → Domains → Domains
unfolding or_empty
domains_fetched caller id r d = finish caller (set_list id (or_empty r) d)

-- The `custom_domains_only` of the status, when the effect gets it.
unfoldable pub status_got : Response Bool → Domains → Domains
status_got (ok b) d = record d { custom_domains_only = b; status_pending = false }
status_got (failed f) d = record d { status_pending = false }

unfoldable pub handle_toggle_mode : Bool → Domains → Domains
handle_toggle_mode new_value d = record d {
  mode_loading = true;
  modes = new_value ∷ d.modes;
  sent = update_domain_mode new_value ∷ d.sent;
}

abbrev mode_message : Bool → String
mode_message new_value =
    if new_value then "Only custom domains will be accepted." else "Built-in providers re-enabled."

unfoldable pub mode_toggled : Bool → ℕ → Response (Unit {0}) → Domains → Domains
mode_toggled new_value id (ok u) d = record d {
  custom_domains_only = new_value;
  provider = toast_success id (mode_message new_value) none d.provider;
  mode_loading = false;
}
mode_toggled new_value id (failed f) d = record d {
  provider = toast_error id "Failed to update domain mode." none d.provider;
  mode_loading = false;
}

unfoldable pub handle_add_domain : Domains → Domains
handle_add_domain d =
    let domain = trim d.new_domain in
    if is_empty domain
    then d
    else record d { add_loading = true; adds = d.adds + 1; sent = add_domain domain ∷ d.sent }

-- The text of the toast, which names the domain, is an argument.
unfoldable pub domain_added : String → ℕ → Response (Unit {0}) → Domains → Domains
unfolding fetch_domains
domain_added text id (ok u) d = fetch_domains adding (record d {
  adds = d.adds - 1;
  new_domain = [];
  provider = toast_success id text none d.provider;
})
domain_added text id (failed f) d = record d {
  adds = d.adds - 1;
  provider = toast_error id (message_of "Failed to add domain." f) none d.provider;
  add_loading = false;
}

unfoldable pub handle_delete_domain : CustomDomain → Domains → Domains
handle_delete_domain c d = record d {
  delete_loading_id = some c.id;
  deletes = c ∷ d.deletes;
  sent = delete_domain c.id ∷ d.sent;
}

-- The answer to the deletion of `c`; `rest` is what is still in flight.
unfoldable pub domain_deleted :
    CustomDomain → List CustomDomain → ℕ → Response (Unit {0}) → Domains → Domains
unfolding fetch_domains
domain_deleted c rest id (ok u) d = fetch_domains removing (record d {
  deletes = rest;
  provider = toast_success id ("Domain \"" +++ (c.domain +++ "\" removed.")) none d.provider;
})
domain_deleted c rest id (failed f) d = record d {
  deletes = rest;
  provider = toast_error id (message_of "Failed to remove domain." f) none d.provider;
  delete_loading_id = none;
}

pub data Event : Type 0 where
  toggle_mode enter click_add : Event
  edit_domain : Text → Event
  click_delete : ℕ → Event  -- on a domain's place in the list
  fetched : Caller → ℕ → Response (Option (List CustomDomain)) → Event
  status_answer : Response Bool → Event
  mode_answer : ℕ → Response (Unit {0}) → Event
  add_answer : String → ℕ → Response (Unit {0}) → Event
  delete_answer : ℕ → ℕ → Response (Unit {0}) → Event  -- of the deletion at a place

abbrev is_id : Option ℕ → ℕ → Bool
is_id none n = false
is_id (some m) n = m == n

-- `disabled={domainDeleteLoadingId === d.id}`.
abbrev deletable : Option CustomDomain → Domains → Bool
deletable none d = false
deletable (some c) d = not (is_id d.delete_loading_id c.id)

abbrev pending : Caller → Domains → Bool
pending nobody d = ltb 0 d.lists
pending adding d = ltb 0 d.add_lists
pending removing d = ltb 0 d.delete_lists

-- Whether the card has the event's element, not disabled, or the answer's request is in flight.
unfoldable pub enabled : Domains → Event → Bool
enabled d toggle_mode = not d.mode_loading
enabled d enter = not d.add_loading
enabled d click_add = not d.add_loading && not (is_empty (trim d.new_domain))
enabled d (edit_domain t) = true
enabled d (click_delete i) = not d.domains_loading && deletable (get_elem? d.domains i) d
enabled d (fetched caller id r) = pending caller d
enabled d (status_answer r) = d.status_pending
enabled d (mode_answer id r) = not (is_empty d.modes)
enabled d (add_answer text id r) = ltb 0 d.adds
enabled d (delete_answer i id r) = is_some (get_elem? d.deletes i)

unfoldable pub delete_at : Option CustomDomain → Domains → Domains
unfolding handle_delete_domain
delete_at none d = d
delete_at (some c) d = handle_delete_domain c d

-- The list without what stands at a place.
pub without : ℕ → List CustomDomain → List CustomDomain
without i [] = []
without zero (c ∷ l) = l
without (suc i) (c ∷ l) = c ∷ without i l

unfoldable pub delete_answered :
    Option CustomDomain → ℕ → ℕ → Response (Unit {0}) → Domains → Domains
unfolding domain_deleted
delete_answered none i id r d = d
delete_answered (some c) i id r d = domain_deleted c (without i d.deletes) id r d

-- The answer to the last mode that was sent; while one is in flight the switch is disabled.
unfoldable pub mode_answered : List Bool → ℕ → Response (Unit {0}) → Domains → Domains
unfolding mode_toggled
mode_answered [] id r d = d
mode_answered (b ∷ rest) id r d = mode_toggled b id r (record d { modes = rest })

unfoldable pub handle : Domains → Event → Domains
unfolding domains_fetched status_got handle_toggle_mode handle_add_domain domain_added delete_at
    mode_answered delete_answered
handle d toggle_mode = handle_toggle_mode (not d.custom_domains_only) d
handle d enter = handle_add_domain d
handle d click_add = handle_add_domain d
handle d (edit_domain t) = record d { new_domain = t }
handle d (click_delete i) = delete_at (get_elem? d.domains i) d
handle d (fetched caller id r) = domains_fetched caller id r d
handle d (status_answer r) = status_got r d
handle d (mode_answer id r) = mode_answered d.modes id r d
handle d (add_answer text id r) = domain_added text id r d
handle d (delete_answer i id r) = delete_answered (get_elem? d.deletes i) i id r d

unfoldable pub step : Domains → Event → Domains
unfolding handle enabled
step d e = if enabled d e then handle d e else d

unfoldable pub run : Domains → List Event → Domains
run d [] = d
run d (e ∷ es) = run (step d e) es

-- The card after its effect.
unfoldable pub mounted : Provider → Domains
unfolding fetch_domains
mounted p =
    let d = fetch_domains nobody (record {
      domains = [];
      domains_loading = true;
      new_domain = [];
      add_loading = false;
      delete_loading_id = none;
      custom_domains_only = false;
      mode_loading = false;
      provider = p;
      lists = 0;
      add_lists = 0;
      delete_lists = 0;
      adds = 0;
      deletes = [];
      modes = [];
      status_pending = true;
      sent = [];
    }) in
    record d { sent = get_status ∷ d.sent }
