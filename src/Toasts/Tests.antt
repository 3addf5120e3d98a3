-- ===== src/Toasts/Tests.antt =====
-- Runs of the toast provider at concrete events, and the theorems at them.
use voting_app.Prelude.{◌≡◌, refl, none, some, List, [], ◌∷◌, map}
use voting_app.Toasts.{
  Event, posted, dismiss, elapse, mounted, step, run, toast_success, toast_error,
}
use voting_app.Toasts.Expiry.{screen_empties}
use voting_app.Types.{Toast, info, error, success}

abbrev six : List Event
six =
    posted 1 "a" info none
    ∷ posted 2 "b" error none
    ∷ posted 3 "c" info (some 10)
    ∷ posted 4 "d" info none
    ∷ posted 5 "e" info none
    ∷ posted 6 "f" success none
    ∷ dismiss 4
    ∷ elapse 3
    ∷ []

six_test : map (λ (t : Toast). t.id) (run mounted six).toasts ≡ 2 ∷ 5 ∷ 6 ∷ []
unfolding run step mounted
six_test = refl

toast_test :
    (toast_success 1 "saved" none (toast_error 2 "no" none mounted)).timers
    ≡ record { target = 2; delay = 4000 } ∷ record { target = 1; delay = 4000 } ∷ []
unfolding toast_success toast_error mounted step
toast_test = refl

screen_empties_example : (run (run mounted six) (map elapse (6 ∷ 1 ∷ 5 ∷ 4 ∷ 2 ∷ []))).toasts ≡ []
unfolding run step mounted
screen_empties_example =
    screen_empties six (6 ∷ 1 ∷ 5 ∷ 4 ∷ 2 ∷ []) (refl, (refl, (refl, (refl, (refl, tt)))))
