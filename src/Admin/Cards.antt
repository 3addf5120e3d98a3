-- ===== src/Admin/Cards.antt =====
-- What stands on the dashboard page together (FrontEnd/src/pages/admin/Dashboard.tsx, lines 114 to
-- 302): the dashboard's own part with its two forms, the voting control and the email domains
-- cards, and the password modal, which share the toasts. `to_iso_string` is JavaScript's, `base` the
-- build's `VITE_API_URL`.
use voting_app.Prelude.{Bool, ℕ, Option, some, true, Text, none, false, if◌then◌else◌}
use voting_app.Admin.Dashboard
use voting_app.Admin.Domains
use voting_app.Admin.Domains.{Domains}
use voting_app.Admin.Forms
use voting_app.Admin.Forms.{Forms}
use voting_app.Admin.Password
use voting_app.Admin.Password.{Password}
use voting_app.Admin.VotingControl
use voting_app.Admin.VotingControl.{Control}
use voting_app.Api.{Response, ok, failed}
use voting_app.Toasts.{Provider}

pub record Cards : Type 0 where
  pub forms : Forms
  pub domains : Domains
  pub control : Control
  pub password : Password

-- The page as it is mounted, after the effects of its parts.
unfoldable pub mounted_cards : Provider → Cards
unfolding Forms.mounted Domains.mounted VotingControl.mounted Password.mounted
mounted_cards t = record {
  forms = Forms.mounted t;
  domains = Domains.mounted t;
  control = VotingControl.mounted t;
  password = Password.mounted t;
}

pub data CardEvent : Type 0 where
  in_roster : Forms.Event → CardEvent
  in_domains : Domains.Event → CardEvent
  in_control : VotingControl.Event → CardEvent
  in_password : Password.Event → CardEvent

abbrev forget {ℓ} : {A : Type ℓ} → Response A → Response (Unit {0})
forget (ok a) = ok tt
forget (failed f) = failed f

abbrev roster_answer : Dashboard.Event → Option (Response (Unit {0}))
roster_answer (Dashboard.fetched caller id r) = some (forget r)
roster_answer (Dashboard.add_answer id r) = some r
roster_answer (Dashboard.update_answer id r) = some r
roster_answer (Dashboard.delete_answer id r) = some r
roster_answer e = none

abbrev forms_answer : Forms.Event → Option (Response (Unit {0}))
forms_answer (Forms.of_page e) = roster_answer e
forms_answer e = none

abbrev domains_answer : Domains.Event → Option (Response (Unit {0}))
domains_answer (Domains.fetched caller id r) = some (forget r)
domains_answer (Domains.status_answer r) = some (forget r)
domains_answer (Domains.mode_answer id r) = some r
domains_answer (Domains.add_answer text id r) = some r
domains_answer (Domains.delete_answer i id r) = some r
domains_answer e = none

abbrev control_answer : VotingControl.Event → Option (Response (Unit {0}))
control_answer (VotingControl.status_answer r) = some (forget r)
control_answer (VotingControl.save_answer id r) = some r
control_answer e = none

abbrev password_answer : Password.Event → Option (Response (Unit {0}))
password_answer (Password.answers id r) = some r
password_answer e = none

-- The answer that the event brings, for the interceptor.
abbrev pub answer_in : CardEvent → Option (Response (Unit {0}))
answer_in (in_roster e) = forms_answer e
answer_in (in_domains e) = domains_answer e
answer_in (in_control e) = control_answer e
answer_in (in_password e) = password_answer e

-- The password modal is opened by the dashboard's button, and closes itself.
abbrev asks_password : Forms.Event → Bool
asks_password (Forms.of_page Dashboard.open_password) = true
asks_password e = false

unfoldable pub allowed : Cards → CardEvent → Bool
unfolding Forms.enabled Domains.enabled VotingControl.enabled Password.enabled
allowed w (in_roster e) = Forms.enabled w.forms e
allowed w (in_domains e) = Domains.enabled w.domains e
allowed w (in_control e) = VotingControl.enabled w.control e
allowed w (in_password e) = Password.enabled w.password e

-- The modal's `isOpen` is the dashboard's `changePwOpen`.
abbrev synced : Password → Forms → Forms
synced p s = record s { dashboard = record (s.dashboard) { change_pw_open = p.is_open } }

abbrev with_toasts : Provider → Forms → Forms
with_toasts t s = record s { dashboard = record (s.dashboard) { provider = t } }

module _ (to_iso_string : ℕ → Text) (base : Text) where
  -- The part's step on the shared toasts `t`, and the toasts after it.
  unfoldable pub in_card : CardEvent → Provider → Cards → Cards × Provider
  unfolding Forms.step Domains.step VotingControl.step Password.step
  in_card (in_roster e) t w =
      let s = Forms.step base (with_toasts t w.forms) e in
      let p = if asks_password e then record (w.password) { is_open = true } else w.password in
      (record w { forms = synced p s; password = p }, s.dashboard.provider)
  in_card (in_domains e) t w =
      let d = Domains.step (record (w.domains) { provider = t }) e in
      (record w { domains = d }, d.provider)
  in_card (in_control e) t w =
      let c = VotingControl.step to_iso_string (record (w.control) { provider = t }) e in
      (record w { control = c }, c.provider)
  in_card (in_password e) t w =
      let p = Password.step (record (w.password) { provider = t }) e in
      (record w { forms = synced p w.forms; password = p }, p.provider)
