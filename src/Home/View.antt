-- ===== src/Home/View.antt =====
-- What FrontEnd/src/pages/Home.tsx shows (lines 87 to 221), without styles and the fixed texts.
use voting_app.Prelude.{
  ltb, ◌&&◌, get_elem?, arith, [], length, is_some, refl, Bool, Option, Text, List, ℕ, false, true,
  if◌then◌else◌, some, ◌∷◌, ◌≡◌, not, none,
}
use voting_app.CandidateCard.{Card, has_voted, card, Voted, vote_button}
use voting_app.Home.{total_votes, cards, is_open, ends_at_of, shown_modal, handle_vote}
use voting_app.Home.Page.{Page, step, handle, render, votes, vote_of, Event, run, visit}
use voting_app.Home.Shown.{Matched, page-Matched}
use voting_app.Storage.{Storage}
use voting_app.Toasts.{Provider}
use voting_app.Types.{Candidate, WsStatus, connecting, connected, disconnected}
use voting_app.VoteModal.Session.{start, Session}

pub data Badge : Type 0 where
  live_results connecting_badge reconnecting : Badge

pub data Main : Type 0 where
  loading_candidates no_candidates : Main
  grid : (grayed : Bool) (cards : List Card) → Main

pub record View : Type 0 where
  pub badge : Badge
  pub closed_banner : Bool
  pub closes_in : Option Text
  pub totals : Option (ℕ × ℕ)  -- votes and candidates
  pub main : Main
  pub closed_hint : Bool
  pub modal : Option Candidate

abbrev status_badge : WsStatus → Badge
status_badge connected = live_results
status_badge connecting = connecting_badge
status_badge disconnected = reconnecting

-- `votingOpen === false`.
abbrev is_closed : Option Bool → Bool
is_closed none = false
is_closed (some b) = not b

-- `votingOpen === true && endsAt && countdown`.
abbrev closes_text : Bool → Option ℕ → Option Text → Option Text
closes_text true (some e) remaining = remaining
closes_text true none remaining = none
closes_text false ends remaining = none

abbrev is_connecting : WsStatus → Bool
is_connecting connecting = true
is_connecting connected = false
is_connecting disconnected = false

abbrev main_of : WsStatus → Bool → List Card → List Candidate → Main
main_of status closed cs [] = if is_connecting status then loading_candidates else no_candidates
main_of status closed cs (c ∷ l) = grid closed cs

unfoldable pub view : Text → Page → View
unfolding total_votes cards
view base p =
    let open_now = p.home.voting_open in
    let total = total_votes p.home.candidates in
    record {
      badge = status_badge p.hook.status;
      closed_banner = is_closed open_now;
      closes_in =
          closes_text (is_open open_now) (ends_at_of p.hook.voting_status) p.clock.remaining;
      totals = if ltb 0 total then some (total, length p.home.candidates) else none;
      main = main_of p.hook.status (is_closed open_now) (cards base p.home) p.home.candidates;
      closed_hint = is_closed open_now && ltb 0 (length p.home.candidates);
      modal = shown_modal p.home;
    }

-- The closed banner and the countdown exclude each other, and so do the modal and either sign that the
-- voting is closed.
abbrev pub Coherent : View → Type 0
Coherent v =
    ((v.closed_banner && is_some v.closes_in) ≡ false)
    × ((is_some v.modal && v.closed_banner) ≡ false)
    × ((is_some v.modal && v.closed_hint) ≡ false)

-- The page tells one story: it never shows the closed banner together with the countdown or with the
-- modal, nor the hint that the voting is closed together with the modal.
pub view-Coherent : (base : Text) (p : Page) → Coherent (view base p)
unfolding view shown_modal
view-Coherent base p = ground arith

-- A click on the vote button of a card, on a page without a modal.
vote_opens :
    (p : Page) (i : ℕ) (c : Candidate)
    → Matched p
    → p.session ≡ none
    → is_open p.clock.open_memo ≡ true
    → get_elem? p.home.candidates i ≡ some c
    → has_voted p.home.voted_candidate_id ≡ false
    → ((step p (votes i)).session ≡ some (start c p.home.storage p.provider))
      × ((step p (votes i)).home.selected_candidate ≡ some c)
unfolding step handle vote_of render handle_vote shown_modal
vote_opens p i c m n o e v = ground (arith, m.open_memo)

vote_closed :
    (p : Page) (i : ℕ)
    → Matched p
    → p.session ≡ none
    → is_open p.clock.open_memo ≡ false
    → ((step p (votes i)).session ≡ none)
      × ((step p (votes i)).home.selected_candidate ≡ p.home.selected_candidate)
unfolding step handle vote_of render handle_vote shown_modal
vote_closed p i m n o = ground (arith, m.open_memo)

not_voted_of :
    (base : Text) (c : Candidate) (rank : ℕ) (v : Voted)
    → (card base c rank v).action ≡ vote_button
    → has_voted v ≡ false
unfolding card
not_voted_of base c rank v e = ground arith

if_open :
    (b : Bool) (o p : Option Session) (x y z : Option Candidate)
    → (b ≡ true → (o ≡ p) × (x ≡ y))
    → (b ≡ false → (o ≡ none) × (x ≡ z))
    → (o ≡ (if b then p else none)) × (x ≡ (if b then y else z))
if_open true o p x y z h k = h refl
if_open false o p x y z h k = k refl

-- On every page that events lead to and that shows no modal, a click on the vote button of a card opens
-- a fresh modal for the card's candidate and selects it if the page holds the voting for open, and
-- opens none and leaves the selection as it is if not.
pub vote_click :
    (g : Storage) (t : Provider) (es : List Event) (i rank : ℕ) (c : Candidate) (base : Text)
    → (run (visit g t) es).session ≡ none
    → get_elem? (run (visit g t) es).home.candidates i ≡ some c
    → (card base c rank (run (visit g t) es).home.voted_candidate_id).action ≡ vote_button
    → let p = run (visit g t) es in
      ((step p (votes i)).session
        ≡ (if is_open p.clock.open_memo then some (start c p.home.storage p.provider) else none))
      × ((step p (votes i)).home.selected_candidate
          ≡ (if is_open p.clock.open_memo then some c else p.home.selected_candidate))
vote_click g t es i rank c base n e a =
    let p = run (visit g t) es in
    let m = page-Matched g t es in
    if_open (is_open p.clock.open_memo) _ _ _ _ _
      (λ o. vote_opens p i c m n o e (not_voted_of base c rank p.home.voted_candidate_id a))
      (λ o. vote_closed p i m n o)
