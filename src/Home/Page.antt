-- ===== src/Home/Page.antt =====
-- FrontEnd/src/pages/Home.tsx as a whole: the page with its web socket, its clock, and the modal that
-- is mounted while a candidate is selected and the voting is open. After each event the page is
-- rendered, which mounts or unmounts the modal. A modal that is gone still gets its answers: they
-- write to the storage and show toasts. The modal covers the cards, but leaves their buttons in reach of
-- the keyboard: a vote button pressed behind it gives the mounted modal another candidate.
use voting_app.Prelude.{
  ℕ, Option, none, some, is_some, List, [], ◌∷◌, Bool, true, false, not, ◌&&◌, if◌then◌else◌, ◌==◌,
  get_elem?, set,
}
use voting_app.CandidateCard.{has_voted}
use voting_app.Home.{
  Home, stored_vote, voting_open, ends_at_of, handle_vote, handle_close_modal, shown_modal,
}
use voting_app.Home.Clock.{Clock, loaded, tick_at}
use voting_app.Storage.{Storage}
use voting_app.Toasts.{Provider}
use voting_app.Types.{Candidate, WsMessage, WsVotingStatus}
use voting_app.VoteModal.Session
use voting_app.VoteModal.Session.{Session, start, request_answer, verify_answer, fingerprint_done}
use voting_app.WebSocket
use voting_app.WebSocket.{Hook, fresh, mount, find_socket, Socket, received}

pub record Page : Type 0 where
  pub hook : Hook
  pub clock : Clock
  pub home : Home
  pub session : Option Session  -- the mounted modal
  pub late : List Session  -- the modals that are gone, the last one first
  pub provider : Provider

-- The mounted modal gets the prop `candidate`, and keeps its state.
abbrev pub with_candidate : Candidate → Session → Session
with_candidate c s = record s { modal = record (s.modal) { candidate = c } }

-- What the render mounts, unmounts, or gives its prop.
abbrev pub swap : Option Candidate → Option Session → Page → Page
unfolding start
swap none none p = p
swap none (some s) p = record p { session = none; late = s ∷ p.late }
swap (some c) none p = record p { session = some (start c p.home.storage p.provider) }
swap (some c) (some s) p = record p { session = some (with_candidate c s) }

unfoldable pub render : Page → Page
unfolding shown_modal start
render p =
    let home = record (p.home) {
      candidates = p.hook.candidates;
      voting_open = p.clock.open_memo;
    } in
    swap (shown_modal home) p.session (record p { home = home })

-- Whether the socket `k` delivers its messages to the mounted hook.
abbrev is_live : Option Socket → Bool
is_live none = false
is_live (some s) = not s.closing

abbrev status_in : Option WsMessage → Bool
status_in none = false
status_in (some m) = is_some m.voting_status

-- Whether the event sets the voting status, which computes the memo `votingOpen` again.
abbrev pub sets_status : Hook → WebSocket.Event → Bool
sets_status h (received k m) = h.is_mounted && (is_live (find_socket k h.sockets) && status_in m)
sets_status h (WebSocket.opened k) = false
sets_status h (WebSocket.errored k) = false
sets_status h (WebSocket.closed k) = false
sets_status h (WebSocket.fired k) = false
sets_status h WebSocket.mounts = false
sets_status h WebSocket.unmounts = false

abbrev same_end : Option ℕ → Option ℕ → Bool
same_end none none = true
same_end none (some e) = false
same_end (some d) none = false
same_end (some d) (some e) = d == e

-- The status `o` is rendered at the time `now`; another end time starts the countdown's effect
-- again, which ticks at once.
unfoldable pub status_set : Option WsVotingStatus → ℕ → Clock → Clock
unfolding voting_open tick_at
status_set o now c =
    let d = record c { voting_status = o; open_memo = voting_open o now } in
    if same_end (ends_at_of c.voting_status) (ends_at_of o) then d else tick_at now d

unfoldable pub on_socket : WebSocket.Event → ℕ → Page → Page
unfolding WebSocket.step status_set
on_socket e now p =
    let h = WebSocket.step p.hook e in
    if sets_status p.hook e
    then record p { hook = h; clock = status_set h.voting_status now p.clock }
    else record p { hook = h }

unfoldable pub vote_of : Option Candidate → Page → Page
unfolding handle_vote
vote_of none p = p
vote_of (some c) p = record p { home = handle_vote c p.home }

-- The modal with the storage and the toasts that it shares with the page.
abbrev pub shared : Page → Session → Session
shared p s = record s { storage = p.home.storage; provider = p.provider }

abbrev is_answer : Session.Event → Bool
is_answer (request_answer r) = true
is_answer (verify_answer r id) = true
is_answer e = false

-- The continuation of a handler has the candidate of the render that it was called in.
abbrev pub calling : Session.Event → Session → Session
calling e s = with_candidate (if is_answer e then s.asker else s.modal.candidate) s

-- The modal's event, and the effect after it.
abbrev pub modal_step : Session.Event → Session → Session
modal_step e s =
    if Session.enabled s e
    then Session.render (with_candidate s.modal.candidate (Session.handle (calling e s) e))
    else s

unfoldable pub in_modal : Option Session → Session.Event → Page → Page
unfolding Session.handle Session.render
in_modal none e p = p
in_modal (some s) e p =
    let t = modal_step e (shared p s) in
    record p {
      session = some t;
      home = record (p.home) { storage = t.storage };
      provider = t.provider;
    }

-- What still happens to a modal that is gone.
abbrev pub is_late : Session → Session.Event → Bool
is_late s (request_answer r) = Session.enabled s (request_answer r)
is_late s (verify_answer r id) = Session.enabled s (verify_answer r id)
is_late s (fingerprint_done v f) = true
is_late s (Session.edit_email v) = false
is_late s (Session.captcha_success t) = false
is_late s Session.captcha_lost = false
is_late s Session.submit = false
is_late s (Session.otp_change i v) = false
is_late s (Session.otp_key_down i b) = false
is_late s (Session.otp_paste t) = false
is_late s Session.resend = false

unfoldable pub in_late : ℕ → Option Session → Session.Event → Page → Page
unfolding Session.handle
in_late i none e p = p
in_late i (some s) e p =
    let t = Session.handle (calling e (shared p s)) e in
    if is_late s e
    then record p {
      late = set p.late i t;
      home = record (p.home) { storage = t.storage };
      provider = t.provider;
    }
    else p

pub data Event : Type 0 where
  socket : WebSocket.Event → ℕ → Event  -- at a time
  ticks_at : ℕ → Event
  votes : ℕ → Event  -- a click on the button of a card
  in_shown : Session.Event → Event
  closes : Event
  in_gone : ℕ → Session.Event → Event

unfoldable pub handle : Page → Event → Page
unfolding on_socket tick_at handle_vote handle_close_modal vote_of in_modal in_late
handle p (socket e now) = on_socket e now p
handle p (ticks_at now) = record p { clock = tick_at now p.clock }
handle p (votes i) =
    if has_voted p.home.voted_candidate_id then p else vote_of (get_elem? p.home.candidates i) p
handle p (in_shown e) = in_modal p.session e p
handle p closes = if is_some p.session then record p { home = handle_close_modal p.home } else p
handle p (in_gone i e) = in_late i (get_elem? p.late i) e p

unfoldable pub step : Page → Event → Page
unfolding handle render
step p e = render (handle p e)

unfoldable pub run : Page → List Event → Page
run p [] = p
run p (e ∷ es) = run (step p e) es

-- The page as it is mounted in a browser with the storage `g`.
unfoldable pub visit : Storage → Provider → Page
unfolding fresh mount stored_vote
visit g p = record {
  hook = mount fresh;
  clock = loaded;
  home = record {
    candidates = [];
    voting_open = none;
    selected_candidate = none;
    voted_candidate_id = stored_vote g.voted_candidate_id;
    storage = g;
  };
  session = none;
  late = [];
  provider = p;
}
