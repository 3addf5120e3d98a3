-- ===== src/Home/PageTests.antt =====
-- The whole page at concrete events, and the theorems at them.
use voting_app.Prelude.{refl, ◌++◌, is_some, [], List, some, ◌≡◌, ◌∷◌, true, none, false, ◌≢◌}
use voting_app.Api.{codes, ok, verify, failed, http, request_otp}
use voting_app.CandidateCard.{card, vote_button, not_voted}
use voting_app.Countdown.{tick, format}
use voting_app.Decimal.{show}
use voting_app.Home.{voting_open, stored_vote, handle_vote, handle_close_modal, shown_modal}
use voting_app.Home.Clock.{tick_at, loaded}
use voting_app.Home.Final.{vote_ends}
use voting_app.Home.Page.{
  Page, Event, run, step, visit, handle, render, votes, socket, ticks_at, in_shown, closes,
  on_socket, status_set, in_modal, in_late, vote_of,
}
use voting_app.Home.Reopened.{switch_at, reopened_afresh}
use voting_app.Home.Swapped.{vote_swapped, sent_by}
use voting_app.Home.View.{vote_click}
use voting_app.Storage.{empty_storage, Storage}
use voting_app.Toasts.{mounted}
use voting_app.Types.{Candidate}
use voting_app.VoteModal.{
  handle_request_otp, request_otp_answered, auto_submit, opened as modal_opened, otp_step,
}
use voting_app.VoteModal.Retry.{pasted_digits}
use voting_app.VoteModal.Session
use voting_app.VoteModal.Session.{
  Session, start, edit_email, captcha_success, submit, request_answer, verify_answer, otp_paste,
}
use voting_app.WebSocket
use voting_app.WebSocket.{find_socket, fresh, mount, opened, received, on_open, on_message}

abbrev ann : Candidate
ann = record {
  id = 1;
  name = "Ann";
  description = [];
  image_path = [];
  total_votes = 2;
  created_at = "";
}

abbrev bob : Candidate
bob = record {
  id = 2;
  name = "Bob";
  description = [];
  image_path = [];
  total_votes = 0;
  created_at = "";
}

-- The server sends a list and opens the voting.
abbrev loading : List Event
loading =
    socket (opened 0) 100
    ∷ socket
        (received 0 (
          some (record {
            candidates = some (ann ∷ []);
            voting_status = some (some (record { effectively_open = true; ends_at = some 5000 }));
          })))
        200
    ∷ []

abbrev page : List Event → Page
page es = run (visit empty_storage mounted) es

-- The voter opens the modal, and the voting ends.
abbrev ending : List Event
ending =
    loading ++ votes 0 ∷ in_shown (edit_email (codes "a@b.c")) ∷ ticks_at 4000 ∷ ticks_at 5000 ∷ []

everything : Unit {0}
unfolding run visit step handle render on_socket status_set voting_open tick_at vote_of in_modal
    in_late stored_vote handle_vote handle_close_modal shown_modal fresh mount on_open on_message
    start Session.step Session.handle Session.render WebSocket.step find_socket mounted tick
everything = tt

loading_test :
    (is_some (page (loading ++ votes 0 ∷ [])).session ≡ true)
    × ((page ending).session ≡ none)
    × ((page ending).clock.open_memo ≡ some false)
unfolding everything format show
loading_test = (refl, refl, refl)

vote_click_example :
    ((step (page loading) (votes 0)).session ≡ some (start ann empty_storage mounted))
    × ((step (page loading) (votes 0)).home.selected_candidate ≡ some ann)
unfolding everything card
vote_click_example = vote_click empty_storage mounted loading 0 1 ann [] refl refl refl

reopened_afresh_example :
    let p = page (loading ++ votes 0 ∷ []) in
    let q = step p (switch_at false 0 300) in
    let r = step q (switch_at true 0 400) in
    (q.session ≡ none)
    × (r.home.voted_candidate_id ≡ p.home.voted_candidate_id)
    × (r.session ≡ some (start ann p.home.storage p.provider))
unfolding everything
reopened_afresh_example =
    reopened_afresh (page (loading ++ votes 0 ∷ [])) ann 0 300 400
      (record { id = 0; listened = true; closing = false }, refl, refl, refl) refl

abbrev listing : List Event
listing =
    socket (opened 0) 100
    ∷ socket
        (received 0 (
          some (record {
            candidates = some (ann ∷ bob ∷ []);
            voting_status = some (some (record { effectively_open = true; ends_at = none }));
          })))
        200
    ∷ []

abbrev known : Storage
known = record empty_storage { voter_fp = some (codes "f") }

-- The voter asks for a code, and has voted before.
abbrev voting : List Event
voting =
    listing
    ++ votes 0
      ∷ in_shown (edit_email (codes "a@b.c"))
      ∷ in_shown (captcha_success (codes "t"))
      ∷ in_shown submit
      ∷ in_shown (request_answer (failed (http 409 none)))
      ∷ []

everything_in_modal : Unit {0}
unfolding everything handle_request_otp request_otp_answered auto_submit
everything_in_modal = tt

vote_ends_example :
    let q = run (step (run (visit known mounted) voting) closes) (votes 1 ∷ []) in
    (q.session ≡ none) × ((card [] bob 2 q.home.voted_candidate_id).action ≢ vote_button)
unfolding everything_in_modal
vote_ends_example = vote_ends known mounted voting (votes 1 ∷ []) [] bob 2 refl

-- Ann's modal waits for the code.
abbrev waiting : Session
waiting = record {
  modal = record (modal_opened ann (some (codes "f"))) { step = otp_step; email = codes "a@b.c" };
  storage = known;
  provider = mounted;
  otp_requests = 0;
  verifications = 0;
  sent = request_otp (codes "a@b.c") (codes "f") (codes "t") 1 ∷ [];
  asker = ann;
}

abbrev waiting_page : Page
waiting_page = record {
  hook = mount fresh;
  clock = record loaded { open_memo = some true };
  home = record {
    candidates = ann ∷ bob ∷ [];
    voting_open = some true;
    selected_candidate = some ann;
    voted_candidate_id = not_voted;
    storage = known;
  };
  session = some waiting;
  late = [];
  provider = mounted;
}

vote_swapped_example :
    let q = step (step waiting_page (votes 1)) (in_shown (otp_paste (codes "123456"))) in
    (sent_by q ≡ verify (codes "a@b.c") (pasted_digits (codes "123456")) ∷ waiting.sent)
    × ((step q (in_shown (verify_answer (ok tt) 1))).home.storage.voted_candidate_id
        ≡ some (show 2))
unfolding modal_opened
vote_swapped_example =
    vote_swapped waiting_page waiting bob 1 1 (codes "123456")
      (record { open_memo = refl; shown = refl }) refl refl refl refl refl refl refl refl
