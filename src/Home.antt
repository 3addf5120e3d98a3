-- ===== src/Home.antt =====
-- FrontEnd/src/pages/Home.tsx, lines 46 to 220, without styles: the voting state, the cards, and the
-- modal that a card opens.
pub mod Clock
pub mod Votes
pub mod Page
pub mod Shown
pub mod Final
pub mod Swapped
pub mod Reopened
pub mod View
mod Tests
mod PageTests
use voting_app.Prelude.{
  ℕ, ◌≡◌, Option, List, none, Text, some, Bool, ◌∷◌, false, leb, if◌then◌else◌, ◌+◌, not, true, [],
}
use voting_app.CandidateCard.{Voted, not_voted, voted_for, voted_nan, Card, card}
use voting_app.Decimal.{number}
use voting_app.Storage.{Storage}
use voting_app.Types.{Candidate, WsVotingStatus}

-- `stored ? Number(stored) : null`.
abbrev of_number : Option ℕ → Voted
of_number none = voted_nan
of_number (some n) = voted_for n

unfoldable pub stored_vote : Option Text → Voted
stored_vote none = not_voted
stored_vote (some []) = not_voted
stored_vote (some (c ∷ s)) = of_number (number (c ∷ s))

-- `votingStatus?.ends_at ?? null`.
abbrev pub ends_at_of : Option WsVotingStatus → Option ℕ
ends_at_of none = none
ends_at_of (some s) = s.ends_at

abbrev pub expired : Option ℕ → ℕ → Bool
expired none now = false
expired (some e) now = leb e now

-- The memo `votingOpen` at the time `now`; `none` is null.
unfoldable pub voting_open : Option WsVotingStatus → ℕ → Option Bool
voting_open none now = none
voting_open (some s) now =
    if not s.effectively_open
    then some false
    else if expired s.ends_at now
    then some false
    else some true

reduce_votes : ℕ → List Candidate → ℕ
reduce_votes sum [] = sum
reduce_votes sum (c ∷ l) = reduce_votes (sum + c.total_votes) l

unfoldable pub total_votes : List Candidate → ℕ
unfolding reduce_votes
total_votes l = reduce_votes 0 l

pub record Home : Type 0 where
  pub candidates : List Candidate
  pub voting_open : Option Bool
  pub selected_candidate : Option Candidate
  pub voted_candidate_id : Voted
  pub storage : Storage

abbrev pub is_open : Option Bool → Bool
is_open none = false
is_open (some b) = b

unfoldable pub handle_vote : Candidate → Home → Home
handle_vote c h = if is_open h.voting_open then record h { selected_candidate = some c } else h

unfoldable pub handle_close_modal : Home → Home
unfolding stored_vote
handle_close_modal h = record h {
  selected_candidate = none;
  voted_candidate_id = stored_vote h.storage.voted_candidate_id;
}

-- `selectedCandidate && votingOpen &&`: the candidate of the modal that is shown.
unfoldable pub shown_modal : Home → Option Candidate
shown_modal h = if is_open h.voting_open then h.selected_candidate else none

-- The cards, ranked by their place in the list.
pub cards_from : Text → ℕ → List Candidate → Voted → List Card
cards_from base rank [] voted = []
cards_from base rank (c ∷ l) voted = card base c rank voted ∷ cards_from base (rank + 1) l voted

unfoldable pub cards : Text → Home → List Card
unfolding cards_from
cards base h = cards_from base 1 h.candidates h.voted_candidate_id
