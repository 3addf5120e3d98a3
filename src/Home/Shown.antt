-- ===== src/Home/Shown.antt =====
-- When the page shows its modal, and for which candidate.
use voting_app.Prelude.{List, ◌∷◌, ◌≡◌, Option, arith, some, if◌then◌else◌, none, refl, []}
use voting_app.Home.{is_open, shown_modal}
use voting_app.Home.Page.{Page, render, handle, Event, run, visit, step}
use voting_app.Storage.{Storage}
use voting_app.Toasts.{Provider}
use voting_app.Types.{Candidate}
use voting_app.VoteModal.Session.{Session, start}

abbrev pub candidate_of : Option Session → Option Candidate
candidate_of none = none
candidate_of (some s) = some s.modal.candidate

-- The modal is that of the selected candidate, while the voting is open.
pub record Matched (p : Page) : Type 0 where
  pub open_memo : p.home.voting_open ≡ p.clock.open_memo
  pub shown :
      candidate_of p.session
      ≡ (if is_open p.clock.open_memo then p.home.selected_candidate else none)

render-Matched : (p : Page) → Matched (render p)
unfolding render shown_modal start
render-Matched p = ground arith

run-Matched : (p : Page) (es : List Event) → Matched p → Matched (run p es)
unfolding run step
run-Matched p [] h = h
run-Matched p (e ∷ es) h = run-Matched (step p e) es (render-Matched (handle p e))

visit-Matched : (g : Storage) (t : Provider) → Matched (visit g t)
unfolding visit
visit-Matched g t = record { open_memo = refl; shown = refl }

-- Whatever the server, the clock and the voter do, the page shows its modal exactly while a candidate
-- is selected and the page holds the voting for open, and it is the modal of the selected candidate.
pub page-Matched : (g : Storage) (t : Provider) (es : List Event) → Matched (run (visit g t) es)
page-Matched g t es = run-Matched (visit g t) es (visit-Matched g t)
