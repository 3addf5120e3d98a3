-- ===== src/Admin/VotingControl/Saving.antt =====
-- What the voting control card sends, and when.
use voting_app.Prelude.{
  ◌≡◌, Bool-cases, inl, arith, inr, if◌then◌else◌, refl, ℕ, Text, List, ◌∷◌, [], true, not,
}
use voting_app.Admin.VotingControl.{
  Control, Status, Event, step, run, mounted, handle, enabled, status_answer, save, toggle,
  map_time, status_got, handle_save, saved,
}
use voting_app.Api.{ok, get_status, update_voting_settings}
use voting_app.Toasts.{Provider}

module _ (to_iso_string : ℕ → Text) where
  -- One save in flight at most, while the button is disabled; before the status is settled nothing
  -- is saved.
  abbrev pub Ordered : Control → Type 0
  Ordered c =
      (c.saves ≡ (if c.voting_loading then 1 else 0))
      × (c.voting_settings_loading ≡ true → c.sent ≡ get_status ∷ [])

  handle-Ordered :
      (c : Control) (e : Event)
      → enabled c e ≡ true
      → Ordered c
      → Ordered (handle to_iso_string c e)
  unfolding handle enabled status_got handle_save saved
  handle-Ordered c e a h = ground arith

  step-Ordered : (c : Control) (e : Event) → Ordered c → Ordered (step to_iso_string c e)
  unfolding step
  step-Ordered c e h = elim (Bool-cases (enabled c e)) [
    | inl a ↦ rw a (handle-Ordered c e a h)
    | inr a ↦ rw a h
  ]

  run_keeps : (c : Control) (es : List Event) → Ordered c → Ordered (run to_iso_string c es)
  unfolding run
  run_keeps c [] h = h
  run_keeps c (e ∷ es) h = run_keeps (step to_iso_string c e) es (step-Ordered c e h)

  mounted-Ordered : (p : Provider) → Ordered (mounted p)
  unfolding mounted
  mounted-Ordered p = (refl, λ e. refl)

  -- Nothing is saved before the server's settings are there: whatever happens, while the card waits
  -- for the status only the request for it was sent, and later at most one save is in flight, exactly
  -- while the card is saving.
  pub run-Ordered : (p : Provider) (es : List Event) → Ordered (run to_iso_string (mounted p) es)
  run-Ordered p es = run_keeps (mounted p) es (mounted-Ordered p)

  -- Saving keeps what is not changed: the settings that the card loads, saved at once, or with the
  -- voting turned off or on, are sent with the server's own end time, if it has one.
  pub saved_as_loaded :
      (p : Provider) (s : Status)
      → ((run to_iso_string (mounted p) (status_answer (ok s) ∷ save ∷ [])).sent
          ≡ update_voting_settings s.is_open (map_time to_iso_string s.ends_at) ∷ get_status ∷ [])
        × ((run to_iso_string (mounted p) (status_answer (ok s) ∷ toggle ∷ save ∷ [])).sent
            ≡ update_voting_settings (not s.is_open) (map_time to_iso_string s.ends_at)
              ∷ get_status
              ∷ [])
  unfolding run step handle enabled status_got handle_save mounted
  saved_as_loaded p s = ground arith
