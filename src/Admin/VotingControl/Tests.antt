-- ===== src/Admin/VotingControl/Tests.antt =====
-- Runs of the voting control card at concrete events.
use voting_app.Prelude.{◌≡◌, refl, [], List, ◌∷◌, some, true, false}
use voting_app.Admin.VotingControl.{
  run, mounted, status_answer, save, pick, save_answer, Event, step, handle, enabled, status_got,
  handle_save, saved,
}
use voting_app.Api.{failed, network, codes, get_status, update_voting_settings}
use voting_app.Decimal.{show}
use voting_app.Toasts.{Provider}

abbrev no_toasts : Provider
no_toasts = record { toasts = []; timers = [] }

-- The status cannot be had, an end time is picked, and the second click comes while the first save is
-- in flight.
abbrev saving : List Event
saving =
    save
    ∷ status_answer (failed network)
    ∷ pick (some 5)
    ∷ save
    ∷ save
    ∷ save_answer 1 (failed network)
    ∷ []

saving_test :
    ((run show (mounted no_toasts) saving).sent
      ≡ update_voting_settings true (some (codes "5")) ∷ get_status ∷ [])
    × ((run show (mounted no_toasts) saving).voting_loading ≡ false)
unfolding run mounted step handle enabled status_got handle_save saved show
saving_test = (refl, refl)
