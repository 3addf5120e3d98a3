-- ===== src/Home/Clock.antt =====
-- When the page notices that the voting has ended: the memo `votingOpen` is computed again where a
-- message brings a new status, and where the countdown's state changes. A tick that sets the text
-- that is there already makes no render. `ends_at` counts milliseconds, as the clock does.
use voting_app.Prelude.{
  ℕ, ◌≡◌, is_some, [], if◌then◌else◌, ◌<◌, ◌≤◌, arith, All, ap, ◌∙◌, refl, Text, Option, none, List,
  Bool, some, ◌∷◌, true, false, same_text,
}
use voting_app.Countdown.{tick}
use voting_app.Home.{voting_open, ends_at_of}
use voting_app.Types.{WsVotingStatus}

-- React compares the new state with the old one.
abbrev same_state : Option Text → Option Text → Bool
same_state none none = true
same_state none (some t) = false
same_state (some s) none = false
same_state (some s) (some t) = same_text s t

pub record Clock : Type 0 where
  pub voting_status : Option WsVotingStatus
  pub remaining : Option Text
  pub open_memo : Option Bool

abbrev pub loaded : Clock
loaded = record { voting_status = none; remaining = none; open_memo = none }

-- A message with the status `s`, rendered at the time `now`.
unfoldable pub snapshot : WsVotingStatus → ℕ → Clock → Clock
snapshot s now c = record c { voting_status = some s; open_memo = voting_open (some s) now }

abbrev pub tick_of : Option ℕ → ℕ → Option Text
tick_of none now = none
tick_of (some e) now = tick e now

-- The countdown's tick at the time `now`: the first one, when the effect runs, or a later one.
unfoldable pub tick_at : ℕ → Clock → Clock
tick_at now c =
    let next = tick_of (ends_at_of c.voting_status) now in
    if same_state next c.remaining
    then c
    else record c { remaining = next; open_memo = voting_open c.voting_status now }

unfoldable pub ticks : List ℕ → Clock → Clock
ticks [] c = c
ticks (t ∷ ts) c = ticks ts (tick_at t c)

module _ (s : WsVotingStatus) (e : ℕ) (ends : s.ends_at ≡ some e) where
  -- The clock runs: a countdown is shown.
  abbrev Counting : Clock → Type 0
  Counting c = (c.voting_status ≡ some s) × (is_some c.remaining ≡ true)

  tick_before : (t : ℕ) (c : Clock) → c.voting_status ≡ some s → t < e → Counting (tick_at t c)
  unfolding tick_at tick
  tick_before t c v h = ground arith

  tick_end :
      (t : ℕ) (c : Clock)
      → Counting c
      → e ≤ t
      → ((tick_at t c).voting_status ≡ some s)
        × ((tick_at t c).remaining ≡ none)
        × ((tick_at t c).open_memo ≡ some false)
  unfolding tick_at tick voting_open
  tick_end t c v h = ground arith

  tick_after :
      (t : ℕ) (c : Clock) → c.voting_status ≡ some s → c.remaining ≡ none → e ≤ t → tick_at t c ≡ c
  unfolding tick_at tick
  tick_after t c v r h = ground arith

  ticks_before :
      (ts : List ℕ) (c : Clock) → Counting c → All (λ t. t < e) ts → Counting (ticks ts c)
  unfolding ticks
  ticks_before [] c v h = v
  ticks_before (t ∷ ts) c v (p, h) = ticks_before ts (tick_at t c) (tick_before t c v.0 p) h

  ticks_after :
      (ts : List ℕ) (c : Clock)
      → c.voting_status ≡ some s
      → c.remaining ≡ none
      → All (λ t. e ≤ t) ts
      → ticks ts c ≡ c
  unfolding ticks
  ticks_after [] c v r h = refl
  ticks_after (t ∷ ts) c v r (p, h) = ap (ticks ts) (tick_after t c v r p) ∙ ticks_after ts c v r h

-- If the first tick after a status with an end time comes before that time, then the first tick from
-- the end time on closes the voting, and it stays closed at all later ticks.
pub expiry_noticed :
    (s : WsVotingStatus) (e r first last : ℕ) (before after : List ℕ) (c : Clock)
    → s.ends_at ≡ some e
    → first < e
    → All (λ t. t < e) before
    → e ≤ last
    → All (λ t. e ≤ t) after
    → (ticks after (tick_at last (ticks before (tick_at first (snapshot s r c))))).open_memo
      ≡ some false
unfolding snapshot
expiry_noticed s e r first last before after c ends f b l a =
    let c₀ = snapshot s r c in
    let c₁ = tick_at first c₀ in
    let c₂ = ticks before c₁ in
    let counting = ticks_before s e ends before c₁ (tick_before s e ends first c₀ refl f) b in
    let (v, rem, closed) = tick_end s e ends last c₂ counting l in
    ap (λ (d : Clock). d.open_memo) (ticks_after s e ends after (tick_at last c₂) v rem a) ∙ closed

-- But if a page with no countdown renders an open status just before its end time, and the first tick
-- comes only at or after that time, the page holds the voting for open at all later ticks, until
-- another message comes.
pub expiry_missed :
    (s : WsVotingStatus) (e r : ℕ) (later : List ℕ) (c : Clock)
    → s.effectively_open ≡ true
    → s.ends_at ≡ some e
    → c.remaining ≡ none
    → r < e
    → All (λ t. e ≤ t) later
    → (ticks later (snapshot s r c)).open_memo ≡ some true
unfolding snapshot voting_open
expiry_missed s e r later c o ends rem h a =
    ap (λ (d : Clock). d.open_memo) (ticks_after s e ends later (snapshot s r c) refl rem a)
    ∙ ground arith
