-- ===== src/Storage.antt =====
-- The three keys of the browser's `localStorage` that the program uses: `voter_fp`
-- (FrontEnd/src/hooks/useFingerprint.ts), `voted_candidate_id` (FrontEnd/src/pages/Home.tsx and
-- FrontEnd/src/components/VoteModal.tsx) and `theme` (FrontEnd/src/utils/theme.ts).
use voting_app.Prelude.{Option, none, some, Text, is_empty, Bool, false, not}

pub record Storage : Type 0 where
  pub voter_fp : Option Text
  pub voted_candidate_id : Option Text
  pub theme : Option Text

abbrev pub empty_storage : Storage
empty_storage = record { voter_fp = none; voted_candidate_id = none; theme = none }

-- Whether a text that may be null is truthy: neither null nor empty.
abbrev pub truthy : Option Text → Bool
truthy none = false
truthy (some s) = not (is_empty s)
