-- ===== src/WebSocket/Snapshot.antt =====
-- The board that the hook returns is made by the delivered messages alone.
use voting_app.Prelude.{
  ◌≡◌, Option, none, some, List, [], ◌∷◌, Bool, false, if◌then◌else◌, arith, get_or_else, refl, ◌∙◌,
  ap,
}
use voting_app.Types.{Candidate, WsVotingStatus, WsMessage}
use voting_app.WebSocket.{
  Socket, Hook, Event, opened, received, errored, closed, fired, mounts, unmounts, step, run,
  find_socket,
}

pub record Board : Type 0 where
  pub candidates : List Candidate
  pub voting_status : Option WsVotingStatus

abbrev pub board : Hook → Board
board h = record { candidates = h.candidates; voting_status = h.voting_status }

-- What a well-formed message does: each part replaces the old one if the message has it.
abbrev pub update : WsMessage → Board → Board
update m b = record {
  candidates = get_or_else b.candidates m.candidates;
  voting_status = get_or_else b.voting_status m.voting_status;
}

-- The socket can deliver a message to a mounted hook.
abbrev pub delivers : Bool → Option Socket → Bool
delivers mounted none = false
delivers mounted (some s) = if s.closing then false else mounted

abbrev pub delivered_by : Hook → Event → Option WsMessage
delivered_by h (received k msg) =
    if delivers h.is_mounted (find_socket k h.sockets) then msg else none
delivered_by h _ = none

abbrev pub update? : Option WsMessage → Board → Board
update? none b = b
update? (some m) b = update m b

-- The fold of the messages that are delivered in a run.
pub fold_board : Hook → List Event → Board → Board
fold_board h [] b = b
fold_board h (e ∷ es) b = fold_board (step h e) es (update? (delivered_by h e) b)

step_board : (h : Hook) (e : Event) → board (step h e) ≡ update? (delivered_by h e) (board h)
unfolding step
step_board h (opened k) = ground arith
step_board h (received k msg) = ground arith
step_board h (errored k) = refl
step_board h (closed k) = ground arith
step_board h (fired k) = ground arith
step_board h mounts = ground arith
step_board h unmounts = ground arith

-- After any events, the candidates and the voting status are those that the delivered messages,
-- taken in order, leave: each replaces the parts that it carries. Opening, closing, errors, retries,
-- mounting, unmounting and malformed messages change neither.
pub board-run : (h : Hook) (es : List Event) → board (run h es) ≡ fold_board h es (board h)
unfolding run fold_board
board-run h [] = refl
board-run h (e ∷ es) = board-run (step h e) es ∙ ap (fold_board (step h e) es) (step_board h e)
