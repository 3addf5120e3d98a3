-- ===== src/Admin/Password/Tests.antt =====
-- Runs of the password modal at concrete events, and the theorems at them.
use voting_app.Prelude.{All, ◌≡◌, ◌∷◌, refl, [], List, none}
use voting_app.Admin.Password.{
  Event, step, run, mounted, handle, enabled, opens, edit_old, edit_new, edit_confirm, submits,
  answers, closes, handle_submit, handle_close, submit_answered,
}
use voting_app.Admin.Password.Closing.{closed_cleared, changes-IsProper, IsProper}
use voting_app.Api.{failed, http, codes, change_password}
use voting_app.Toasts.{Provider}

abbrev no_toasts : Provider
no_toasts = record { toasts = []; timers = [] }

-- A change is refused and in flight again; the administrator tries to close the modal meanwhile.
abbrev changing : List Event
changing =
    opens
    ∷ edit_old (codes "old secret")
    ∷ edit_new (codes "new secret!")
    ∷ submits 1
    ∷ edit_confirm (codes "new secret!")
    ∷ submits 2
    ∷ answers 3 (failed (http 401 none))
    ∷ submits 4
    ∷ closes
    ∷ []

changing_test :
    (run (mounted no_toasts) changing).sent
    ≡ change_password (codes "old secret") (codes "new secret!")
      ∷ change_password (codes "old secret") (codes "new secret!")
      ∷ []
unfolding run step mounted handle enabled handle_submit submit_answered handle_close
changing_test = refl

closed_cleared_example :
    ((run (mounted no_toasts) (opens ∷ edit_old (codes "x") ∷ closes ∷ [])).pw_old ≡ [])
    × ((run (mounted no_toasts) (opens ∷ edit_old (codes "x") ∷ closes ∷ [])).pw_new ≡ [])
    × ((run (mounted no_toasts) (opens ∷ edit_old (codes "x") ∷ closes ∷ [])).pw_confirm ≡ [])
unfolding run step mounted handle enabled handle_close
closed_cleared_example = closed_cleared no_toasts (opens ∷ edit_old (codes "x") ∷ closes ∷ []) refl

changes-IsProper_example : All IsProper (run (mounted no_toasts) changing).sent
changes-IsProper_example = changes-IsProper no_toasts changing
