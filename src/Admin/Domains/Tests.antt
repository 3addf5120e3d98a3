-- ===== src/Admin/Domains/Tests.antt =====
-- Runs of the domains card at concrete events, and the theorems at them.
use voting_app.Prelude.{◌≡◌, ◌∷◌, refl, [], List, some}
use voting_app.Admin.Domains.{
  Event, step, run, mounted, handle, enabled, fetched, nobody, click_delete, delete_answer,
  domains_fetched, fetch_domains,
}
use voting_app.Admin.Domains.Writes.{deletion_repeats}
use voting_app.Admin.Trim.{trim}
use voting_app.Api.{ok, failed, codes, delete_domain, or_empty, network}
use voting_app.Toasts.{Provider}
use voting_app.Types.{CustomDomain}

abbrev no_toasts : Provider
no_toasts = record { toasts = []; timers = [] }

abbrev one : CustomDomain
one = record { id = 1; domain = "a.edu"; created_at = "" }

abbrev two : CustomDomain
two = record { id = 2; domain = "b.edu"; created_at = "" }

abbrev listing : List Event
listing = fetched nobody 1 (ok (some (one ∷ two ∷ []))) ∷ []

trim_test : trim (codes " \tc.d e ") ≡ codes "c.d e"
unfolding trim
trim_test = refl

deletion_repeats_example :
    (run (run (mounted no_toasts) listing) (
      click_delete 0
      ∷ click_delete 1
      ∷ delete_answer 1 2 (failed network)
      ∷ click_delete 1
      ∷ [])).sent
    ≡ delete_domain 2 ∷ delete_domain 2 ∷ delete_domain 1 ∷ (run (mounted no_toasts) listing).sent
unfolding run step mounted handle enabled domains_fetched fetch_domains or_empty
deletion_repeats_example =
    deletion_repeats (run (mounted no_toasts) listing) 0 1 2 one two network refl refl refl refl
      refl refl
