-- ===== src/Home/Tests.antt =====
-- The page at concrete events, and the theorems at them.
use mathlib.Core.List.{flatten}
use voting_app.Prelude.{true, [], false, ◌≡◌, some, List, ◌++◌, ◌∷◌, arith, refl, map}
use voting_app.Api.{ok, codes}
use voting_app.CandidateCard.{card, vote_button, Card, trophy, medal, not_voted, voted_for}
use voting_app.Countdown.{tick, format}
use voting_app.Decimal.{show}
use voting_app.Home.{Home, shown_modal, handle_vote, total_votes, cards, voting_open, stored_vote}
use voting_app.Home.Clock.{ticks, tick_at, snapshot, loaded, expiry_missed, expiry_noticed}
use voting_app.Home.Votes.{left, late_answer, late_vote_unseen}
use voting_app.Storage.{empty_storage}
use voting_app.Toasts.{mounted}
use voting_app.Types.{Candidate, WsVotingStatus}
use voting_app.VoteModal.Session.{
  run, start, Event, step, edit_email, verify_answer, captcha_success, submit, request_answer,
  otp_paste,
}

abbrev status : WsVotingStatus
status = record { effectively_open = true; ends_at = some 5000 }

clock_test :
    ((ticks (1000 ∷ 2000 ∷ []) (snapshot status 900 loaded)).open_memo ≡ some true)
    × ((ticks (4000 ∷ 5000 ∷ []) (snapshot status 900 loaded)).open_memo ≡ some false)
unfolding ticks tick_at tick snapshot voting_open format show
clock_test = (refl, refl)

expiry_noticed_example :
    (ticks
      (6000 ∷ [])
      (tick_at 5000 (ticks (2000 ∷ []) (tick_at 1000 (snapshot status 900 loaded))))).open_memo
    ≡ some false
expiry_noticed_example =
    expiry_noticed status 5000 900 1000 5000 (2000 ∷ []) (6000 ∷ []) loaded refl (omega arith)
      (omega arith) (omega arith) (omega arith)

expiry_missed_example :
    (ticks (5001 ∷ 6001 ∷ []) (snapshot status 4999 loaded)).open_memo ≡ some true
expiry_missed_example =
    expiry_missed status 5000 4999 (5001 ∷ 6001 ∷ []) loaded refl refl refl (omega arith)
      (omega arith)

abbrev ann : Candidate
ann = record {
  id = 7;
  name = "Ann";
  description = [];
  image_path = [];
  total_votes = 3;
  created_at = "";
}

abbrev bob : Candidate
bob = record ann { id = 8; total_votes = 2 }

abbrev page : Home
page = record {
  candidates = ann ∷ bob ∷ [];
  voting_open = some true;
  selected_candidate = some ann;
  voted_candidate_id = not_voted;
  storage = record empty_storage { voter_fp = some (codes "f1") };
}

abbrev until_code : List Event
until_code =
    edit_email (codes "a@b.c")
    ∷ captcha_success (codes "t")
    ∷ submit
    ∷ request_answer (ok tt)
    ∷ otp_paste (codes "123456")
    ∷ []

abbrev whole : List Event
whole = until_code ++ verify_answer (ok tt) 1 ∷ []

page_tests :
    (shown_modal page ≡ some ann)
    × (shown_modal (handle_vote bob page) ≡ some bob)
    × (total_votes page.candidates ≡ 5)
    × (map (λ (k : Card). k.badge) (cards [] page) ≡ some trophy ∷ some medal ∷ [])
unfolding shown_modal handle_vote total_votes cards card
page_tests = (refl, refl, refl, refl)

late_vote_unseen_example :
    let g =
      late_answer
        (run (start ann page.storage mounted) until_code)
        (left ann page mounted until_code) in
    (stored_vote g.storage.voted_candidate_id ≡ voted_for 7)
    × ((card [] bob 2 g.voted_candidate_id).action ≡ vote_button)
unfolding run step start flatten
late_vote_unseen_example =
    late_vote_unseen ann bob page mounted until_code [] 2 refl refl (omega arith)
