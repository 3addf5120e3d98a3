-- ===== src/Admin/Password.antt =====
-- FrontEnd/src/components/admin/ChangePasswordModal.tsx, with the `changePwOpen` of its parent. The
-- handlers are those of the last render; the one that waits for an answer calls the `handleClose`
-- of the render in which it started, which sees the `pwLoading` of that render.
pub mod Closing
mod Tests
use voting_app.Prelude.{
  ℕ, List, [], ◌∷◌, Text, Bool, true, false, not, ◌&&◌, ◌||◌, if◌then◌else◌, is_empty, length, ltb,
  same_text, none,
}
use voting_app.Api.{Request, Response, ok, failed, message_of, change_password}
use voting_app.Toasts.{Provider, toast_success, toast_error}

pub record Password : Type 0 where
  pub is_open : Bool
  pub pw_old : Text
  pub pw_new : Text
  pub pw_confirm : Text
  pub pw_loading : Bool
  pub show_pw_old : Bool
  pub show_pw_new : Bool
  pub show_pw_confirm : Bool
  pub provider : Provider
  pub pending : List Bool  -- the changes in flight, with the `pwLoading` that each one's start saw
  pub sent : List Request

unfoldable pub mounted : Provider → Password
mounted p = record {
  is_open = false;
  pw_old = [];
  pw_new = [];
  pw_confirm = [];
  pw_loading = false;
  show_pw_old = false;
  show_pw_new = false;
  show_pw_confirm = false;
  provider = p;
  pending = [];
  sent = [];
}

-- `handleClose` of a render in which `pwLoading` was `loading`.
unfoldable pub handle_close : Bool → Password → Password
handle_close loading p = if loading then p else record p {
  pw_old = [];
  pw_new = [];
  pw_confirm = [];
  show_pw_old = false;
  show_pw_new = false;
  show_pw_confirm = false;
  is_open = false;
}

-- `handleSubmit` up to its `await`; `id` is for its toast.
unfoldable pub handle_submit : ℕ → Password → Password
handle_submit id p =
    if ltb (length p.pw_new) 10
    then record p {
      provider = toast_error id "New password must be at least 10 characters." none p.provider;
    }
    else if not (same_text p.pw_new p.pw_confirm)
    then record p { provider = toast_error id "New passwords do not match." none p.provider }
    else record p {
      pw_loading = true;
      pending = p.pw_loading ∷ p.pending;
      sent = change_password p.pw_old p.pw_new ∷ p.sent;
    }

-- `handleSubmit` from the answer on.
unfoldable pub submit_answered : Bool → ℕ → Response (Unit {0}) → Password → Password
unfolding handle_close
submit_answered loading id (ok u) p =
    record (handle_close loading
      (record p { provider = toast_success id "Password changed successfully!" none p.provider })) {
        pw_loading = false;
      }
submit_answered loading id (failed f) p = record p {
  provider = toast_error id (message_of "Failed to change password." f) none p.provider;
  pw_loading = false;
}

pub data Event : Type 0 where
  opens closes toggle_old toggle_new toggle_confirm : Event
  edit_old edit_new edit_confirm : Text → Event
  submits : ℕ → Event
  answers : ℕ → Response (Unit {0}) → Event

-- The submit button's `disabled`.
abbrev pub submit_disabled : Password → Bool
submit_disabled p =
    p.pw_loading
    || (is_empty p.pw_old || (ltb (length p.pw_new) 10 || not (same_text p.pw_new p.pw_confirm)))

-- Whether the modal has the event's element, not disabled, or a change is in flight. A click beside
-- the modal calls `handleClose` even when the button to close is disabled.
unfoldable pub enabled : Password → Event → Bool
enabled p opens = not p.is_open
enabled p closes = p.is_open
enabled p toggle_old = p.is_open
enabled p toggle_new = p.is_open
enabled p toggle_confirm = p.is_open
enabled p (edit_old t) = p.is_open
enabled p (edit_new t) = p.is_open
enabled p (edit_confirm t) = p.is_open
enabled p (submits id) = p.is_open && not (submit_disabled p)
enabled p (answers id r) = not (is_empty p.pending)

-- The answer to the last change that was sent; while one is in flight no other can be.
abbrev pub answer : List Bool → ℕ → Response (Unit {0}) → Password → Password
unfolding submit_answered
answer [] id r p = p
answer (loading ∷ rest) id r p = submit_answered loading id r (record p { pending = rest })

unfoldable pub handle : Password → Event → Password
unfolding handle_close handle_submit submit_answered
handle p opens = record p { is_open = true }
handle p closes = handle_close p.pw_loading p
handle p toggle_old = record p { show_pw_old = not p.show_pw_old }
handle p toggle_new = record p { show_pw_new = not p.show_pw_new }
handle p toggle_confirm = record p { show_pw_confirm = not p.show_pw_confirm }
handle p (edit_old t) = record p { pw_old = t }
handle p (edit_new t) = record p { pw_new = t }
handle p (edit_confirm t) = record p { pw_confirm = t }
handle p (submits id) = handle_submit id p
handle p (answers id r) = answer p.pending id r p

unfoldable pub step : Password → Event → Password
unfolding handle enabled
step p e = if enabled p e then handle p e else p

unfoldable pub run : Password → List Event → Password
run p [] = p
run p (e ∷ es) = run (step p e) es
