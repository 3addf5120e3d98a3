-- ===== src/CandidateCard.antt =====
-- FrontEnd/src/components/CandidateCard.tsx: what a card shows, without styles, and when its button
-- calls `onVote`.
use voting_app.Prelude.{
  ℕ, ◌≡◌, Option, Bool, if◌then◌else◌, Text, ◌==◌, false, String, none, leb, some, true, ◌∷◌, ◌&&◌,
  ltb, [], ◌↔◌, ◌<◌, arith, is_some,
}
use voting_app.ImageUrl.{get_image_url}
use voting_app.Types.{Candidate}

-- `votedCandidateId`: what Home makes of the stored text (`stored ? Number(stored) : null`).
pub data Voted : Type 0 where
  not_voted : Voted
  voted_for : ℕ → Voted
  voted_nan : Voted  -- the stored text is not a decimal number

pub data RankIcon : Type 0 where
  trophy medal award : RankIcon

-- `RANK_CONFIG[rank]`.
abbrev pub rank_config : ℕ → Option RankIcon
rank_config rank =
    if rank == 1
    then some trophy
    else if rank == 2
    then some medal
    else if rank == 3
    then some award
    else none

abbrev pub has_voted : Voted → Bool
has_voted not_voted = false
has_voted (voted_for n) = true
has_voted voted_nan = true

-- `votedCandidateId === candidate.id`.
abbrev pub is_voted_for : Voted → ℕ → Bool
is_voted_for not_voted id = false
is_voted_for (voted_for n) id = n == id
is_voted_for voted_nan id = false

pub data Action : Type 0 where
  you_voted already_voted_note : Action
  vote_button : Action

pub record Card : Type 0 where
  pub image : Option Text
  pub is_leader : Bool
  pub badge : Option RankIcon
  pub name : String
  pub description : Option Text
  pub total_votes : ℕ
  pub action : Action

unfoldable pub action_of : Voted → ℕ → Action
action_of voted id =
    if is_voted_for voted id
    then you_voted
    else if has_voted voted
    then already_voted_note
    else vote_button

abbrev shown_description : Text → Option Text
shown_description [] = none
shown_description (c ∷ s) = some (c ∷ s)

unfoldable pub badge_of : ℕ → ℕ → Option RankIcon
badge_of rank total_votes = if leb rank 3 && ltb 0 total_votes then rank_config rank else none

unfoldable pub card : Text → Candidate → ℕ → Voted → Card
unfolding action_of badge_of
card base c rank voted = record {
  image = get_image_url base c.image_path;
  is_leader = rank == 1 && ltb 0 c.total_votes;
  badge = badge_of rank c.total_votes;
  name = c.name;
  description = shown_description c.description;
  total_votes = c.total_votes;
  action = action_of voted c.id;
}

-- A card offers the vote button exactly to a browser that has not voted, and says `You voted` exactly
-- on the candidate that the stored vote is for.
pub action_iff :
    (base : Text) (c : Candidate) (rank : ℕ) (voted : Voted)
    → (((card base c rank voted).action ≡ vote_button) ↔ (voted ≡ not_voted))
      × (((card base c rank voted).action ≡ you_voted) ↔ (voted ≡ voted_for c.id))
unfolding card
action_iff base c rank voted = ground arith

-- A card has a badge exactly at the ranks one to three with at least one vote, and the leader's mark
-- exactly where the badge is the trophy.
pub badge_iff :
    (base : Text) (c : Candidate) (rank : ℕ) (voted : Voted)
    → 0 < rank
    → (is_some (card base c rank voted).badge ≡ (leb rank 3 && ltb 0 c.total_votes))
      × (((card base c rank voted).is_leader ≡ true)
          ↔ ((card base c rank voted).badge ≡ some trophy))
unfolding card
badge_iff base c rank voted h = (ground arith, ground arith)
