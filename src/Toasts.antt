-- ===== src/Toasts.antt =====
-- FrontEnd/src/context/ToastContext.tsx: the provider's list of toasts and its pending timers.
-- `crypto.randomUUID()` is an argument, a number that stands for the identifier.
pub mod Bounds
pub mod Expiry
pub mod Screen
mod Tests
use voting_app.Prelude.{
  ℕ, ◌==◌, ◌++◌, not, String, Option, none, some, List, [], ◌∷◌, keep, slice_last, get_or_else, any,
  Bool, if◌then◌else◌,
}
use voting_app.Types.{Toast, ToastType, success, error, warning, info}

-- A `setTimeout` that waits to call `removeToast(target)`.
pub record Timer : Type 0 where
  pub target : ℕ
  pub delay : ℕ

pub record Provider : Type 0 where
  pub toasts : List Toast
  pub timers : List Timer

unfoldable pub mounted : Provider
mounted = record { toasts = []; timers = [] }

abbrev pub has_id : ℕ → Toast → Bool
has_id id t = t.id == id

abbrev pub aims_at : ℕ → Timer → Bool
aims_at id t = t.target == id

unfoldable pub remove_toast : ℕ → Provider → Provider
remove_toast id p = record p { toasts = keep (λ t. not (has_id id t)) p.toasts }

abbrev pub default_duration : ℕ
default_duration = 4000

unfoldable pub add_toast : ℕ → String → ToastType → Option ℕ → Provider → Provider
add_toast id message type duration p = record {
  toasts = slice_last 4 p.toasts ++ record { id = id; message = message; type = type } ∷ [];
  timers = p.timers ++ record { target = id; delay = get_or_else default_duration duration } ∷ [];
}

-- The four functions of `toast`, each with the identifier that the call draws.
unfoldable pub toast_success : ℕ → String → Option ℕ → Provider → Provider
toast_success id msg dur = add_toast id msg success dur

unfoldable pub toast_error : ℕ → String → Option ℕ → Provider → Provider
toast_error id msg dur = add_toast id msg error dur

unfoldable pub toast_warning : ℕ → String → Option ℕ → Provider → Provider
toast_warning id msg dur = add_toast id msg warning dur

unfoldable pub toast_info : ℕ → String → Option ℕ → Provider → Provider
toast_info id msg dur = add_toast id msg info dur

-- The timers aimed at `id` elapse: their callback runs.
unfoldable pub expire : ℕ → Provider → Provider
unfolding remove_toast
expire id p =
    if any (aims_at id) p.timers
    then remove_toast id (record p { timers = keep (λ t. not (aims_at id t)) p.timers })
    else p

-- What can happen to a mounted provider.
pub data Event : Type 0 where
  posted : ℕ → String → ToastType → Option ℕ → Event
  dismiss : ℕ → Event
  elapse : ℕ → Event

unfoldable pub step : Provider → Event → Provider
unfolding remove_toast add_toast expire
step p (posted id message type duration) = add_toast id message type duration p
step p (dismiss id) = remove_toast id p
step p (elapse id) = expire id p

unfoldable pub run : Provider → List Event → Provider
run p [] = p
run p (e ∷ es) = run (step p e) es
