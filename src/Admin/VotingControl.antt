-- ===== src/Admin/VotingControl.antt =====
-- FrontEnd/src/components/admin/VotingControlCard.tsx: the card's state and its handlers. Times are
-- milliseconds; `toISOString` is a parameter.
pub mod Saving
mod Tests
use voting_app.Prelude.{
  ℕ, ◌+◌, ◌-◌, Option, none, some, is_some, List, [], ◌∷◌, Text, Bool, true, false, not, ◌&&◌,
  if◌then◌else◌, ltb,
}
use voting_app.Api.{Request, Response, ok, failed, update_voting_settings, get_status}
use voting_app.Toasts.{Provider, toast_success, toast_error}

-- The fields of `VotingStatus` that the card reads.
pub record Status : Type 0 where
  pub is_open : Bool
  pub ends_at : Option ℕ

pub record Control : Type 0 where
  pub voting_open : Bool
  pub ends_at_date : Option ℕ
  pub voting_loading : Bool
  pub voting_settings_loading : Bool
  pub provider : Provider
  pub saves : ℕ  -- in flight
  pub sent : List Request

unfoldable pub mounted : Provider → Control
mounted p = record {
  voting_open = true;
  ends_at_date = none;
  voting_loading = false;
  voting_settings_loading = true;
  provider = p;
  saves = 0;
  sent = get_status ∷ [];
}

abbrev or_kept : Option ℕ → Option ℕ → Option ℕ
or_kept none old = old
or_kept (some e) old = some e

-- The effect, from the answer on.
unfoldable pub status_got : Response Status → Control → Control
status_got (ok s) c = record c {
  voting_open = s.is_open;
  ends_at_date = or_kept s.ends_at c.ends_at_date;
  voting_settings_loading = false;
}
status_got (failed f) c = record c { voting_settings_loading = false }

pub data Event : Type 0 where
  status_answer : Response Status → Event
  toggle clear save : Event
  pick : Option ℕ → Event
  save_answer : ℕ → Response (Unit {0}) → Event

-- The settings are shown once the status is settled.
unfoldable pub enabled : Control → Event → Bool
enabled c (status_answer r) = c.voting_settings_loading
enabled c toggle = not c.voting_settings_loading
enabled c clear = not c.voting_settings_loading && is_some c.ends_at_date
enabled c save = not c.voting_settings_loading && not c.voting_loading
enabled c (pick d) = not c.voting_settings_loading
enabled c (save_answer id r) = ltb 0 c.saves

abbrev pub map_time : (ℕ → Text) → Option ℕ → Option Text
map_time f none = none
map_time f (some t) = some (f t)

module _ (to_iso_string : ℕ → Text) where
  -- `handleSave` up to its `await`.
  unfoldable pub handle_save : Control → Control
  handle_save c = record c {
    voting_loading = true;
    saves = c.saves + 1;
    sent = update_voting_settings c.voting_open (map_time to_iso_string c.ends_at_date) ∷ c.sent;
  }

-- `handleSave` from the answer on.
unfoldable pub saved : ℕ → Response (Unit {0}) → Control → Control
saved id (ok u) c = record c {
  saves = c.saves - 1;
  provider = toast_success id "Voting settings saved successfully!" none c.provider;
  voting_loading = false;
}
saved id (failed f) c = record c {
  saves = c.saves - 1;
  provider = toast_error id "Failed to save voting settings." none c.provider;
  voting_loading = false;
}

module _ (to_iso_string : ℕ → Text) where
  unfoldable pub handle : Control → Event → Control
  unfolding status_got handle_save saved
  handle c (status_answer r) = status_got r c
  handle c toggle = record c { voting_open = not c.voting_open }
  handle c clear = record c { ends_at_date = none }
  handle c save = handle_save to_iso_string c
  handle c (pick d) = record c { ends_at_date = d }
  handle c (save_answer id r) = saved id r c

  unfoldable pub step : Control → Event → Control
  unfolding handle enabled
  step c e = if enabled c e then handle c e else c

  unfoldable pub run : Control → List Event → Control
  run c [] = c
  run c (e ∷ es) = run (step c e) es
