-- ===== src/Admin/Dashboard/Deletion.antt =====
-- Which deletions the dashboard sends.
use voting_app.Prelude.{
  ◌≡◌, All, Bool-cases, [], arith, inl, inr, none, refl, Bool, Option, Text, ℕ, List, false, some,
  ◌∷◌, true, get_elem?, ◌++◌, ◌⊎◌, subst, ap, suc, zero, get_or_else,
}
use voting_app.Admin.Dashboard.{
  Event, step, run, mounted, handle, enabled, deletable, open_edit, open_delete, cancel_edit,
  cancel_delete, confirm_delete, open_password, close_password, submit_add, submit_edit, fetched,
  add_answer, update_answer, delete_answer, delete_target_of,
}
use voting_app.Admin.Dashboard.Handlers.{
  Caller, nobody, adding, removing, Dashboard, fetch_candidates, candidates_fetched, added, updated,
  deleted, handle_add, handle_update, handle_delete, updating, FormValues,
}
use voting_app.Api.{
  delete_candidate, or_empty, get_all, add_candidate, update_candidate, get, post, put, delete,
  Method, Request, ok, failed, Response,
}
use voting_app.Toasts.{Provider}
use voting_app.Types.{Candidate}

abbrev is_delete : Method → Bool
is_delete get = false
is_delete post = false
is_delete put = false
is_delete delete = true

-- The candidates that the event brings from the server.
abbrev pub listed : Event → List Candidate
listed (fetched k id (ok (some l))) = l
listed e = []

-- All the candidates that the server has listed.
pub all_listed : List Event → List Candidate
all_listed [] = []
all_listed (e ∷ es) = listed e ++ all_listed es

-- The candidate is in the list.
abbrev pub In : Candidate → List Candidate → Type 0
In c [] = ⊥
In c (x ∷ l) = (x ≡ c) ⊎ In c l

-- If the request is a deletion, it is of a candidate of `P` with no vote.
abbrev pub IsUnvoted : (Candidate → Type 0) → Request → Type 0
IsUnvoted P r =
    is_delete r.method ≡ true
    → (c : Candidate) × (r ≡ delete_candidate c.id) × (c.total_votes ≡ 0) × P c

module _ (P : Candidate → Type 0) where
  -- The candidate whose deletion waits for its confirmation has no vote.
  abbrev HasUnvoted : Option Candidate → Type 0
  HasUnvoted none = Unit
  HasUnvoted (some c) = (c.total_votes ≡ 0) × P c

  abbrev Kept : Dashboard → Type 0
  Kept d = HasUnvoted d.delete_target × All P d.candidates × All (IsUnvoted P) d.sent

  get_all-IsUnvoted : IsUnvoted P get_all
  unfolding get_all
  get_all-IsUnvoted e = absurd (cc)

  add_candidate-IsUnvoted : (n t : Text) (i : Option ℕ) → IsUnvoted P (add_candidate n t i)
  unfolding add_candidate
  add_candidate-IsUnvoted n t i e = absurd (cc)

  update_candidate-IsUnvoted :
      (id : ℕ) (n t : Text) (i : Option ℕ) → IsUnvoted P (update_candidate id n t i)
  unfolding update_candidate
  update_candidate-IsUnvoted id n t i e = absurd (cc)

  fetch-Kept : (k : Caller) (d : Dashboard) → Kept d → Kept (fetch_candidates k d)
  unfolding fetch_candidates
  fetch-Kept nobody d (t, q, l) = (t, q, (get_all-IsUnvoted, l))
  fetch-Kept adding d (t, q, l) = (t, q, (get_all-IsUnvoted, l))
  fetch-Kept updating d (t, q, l) = (t, q, (get_all-IsUnvoted, l))
  fetch-Kept removing d (t, q, l) = (t, q, (get_all-IsUnvoted, l))

  -- The candidates that an answer brings are of `P`.
  abbrev Got : Response (Option (List Candidate)) → Type 0
  Got (ok none) = Unit
  Got (ok (some l)) = All P l
  Got (failed f) = Unit

  Got-All : (o : Option (List Candidate)) → Got (ok o) → All P (get_or_else [] o)
  Got-All none g = tt
  Got-All (some l) g = g

  fetched-Kept :
      (k : Caller) (id : ℕ) (r : Response (Option (List Candidate))) (d : Dashboard)
      → Got r
      → Kept d
      → Kept (candidates_fetched k id r d)
  unfolding candidates_fetched or_empty
  fetched-Kept nobody id (ok o) d g (t, q, l) = (t, Got-All o g, l)
  fetched-Kept nobody id (failed f) d g h = h
  fetched-Kept adding id (ok o) d g (t, q, l) = (t, Got-All o g, l)
  fetched-Kept adding id (failed f) d g h = h
  fetched-Kept updating id (ok o) d g (t, q, l) = (t, Got-All o g, l)
  fetched-Kept updating id (failed f) d g h = h
  fetched-Kept removing id (ok o) d g (t, q, l) = (t, Got-All o g, l)
  fetched-Kept removing id (failed f) d g h = h

  update-Kept :
      (o : Option Candidate) (v : FormValues) (d : Dashboard)
      → d.edit_target ≡ o
      → Kept d
      → Kept (handle_update v d)
  unfolding handle_update
  update-Kept none v d e h = rw e h
  update-Kept (some c) v d e (t, q, l) =
      rw e (t, q, (update_candidate-IsUnvoted c.id v.name v.description v.image_file, l))

  confirm-Kept :
      (o : Option Candidate) (d : Dashboard) → HasUnvoted o → Kept d → Kept (delete_target_of o d)
  unfolding delete_target_of handle_delete
  confirm-Kept none d u h = h
  confirm-Kept (some c) d (u, m) (t, q, l) = (t, q, ((λ i. (c, refl, u, m)), l))

  row-All : (i : ℕ) (l : List Candidate) (c : Candidate) → All P l → get_elem? l i ≡ some c → P c
  row-All i [] c h e = cc
  row-All zero (x ∷ l) c (p, h) e = subst P (ap (get_or_else x) e) p
  row-All (suc i) (x ∷ l) c (p, h) e = row-All i l c h e

  deletable-HasUnvoted :
      (o : Option Candidate) (i : ℕ) (l : List Candidate)
      → get_elem? l i ≡ o
      → All P l
      → deletable o ≡ true
      → HasUnvoted o
  deletable-HasUnvoted none i l e h a = tt
  deletable-HasUnvoted (some c) i l e h a = (ground arith, row-All i l c h e)

  deleted-Kept :
      (l : List Candidate) (id : ℕ) (r : Response (Unit {0})) (d : Dashboard)
      → d.deletes ≡ l
      → Kept d
      → Kept (handle d (delete_answer id r))
  unfolding handle deleted fetch_candidates
  deleted-Kept [] id r d e h = rw e h
  deleted-Kept (c ∷ rest) id (ok u) d e (t, q, l) = rw e (tt, q, (get_all-IsUnvoted, l))
  deleted-Kept (c ∷ rest) id (failed f) d e h = rw e h

  -- What the event brings is of `P`.
  abbrev Brings : Event → Type 0
  Brings e = All P (listed e)

  Brings-Got :
      (k : Caller) (id : ℕ) (r : Response (Option (List Candidate)))
      → Brings (fetched k id r)
      → Got r
  Brings-Got k id (ok none) b = tt
  Brings-Got k id (ok (some l)) b = b
  Brings-Got k id (failed f) b = tt

  handle-Kept :
      (d : Dashboard) (e : Event) → enabled d e ≡ true → Brings e → Kept d → Kept (handle d e)
  unfolding handle enabled handle_add added updated fetch_candidates
  handle-Kept d (open_edit i) a b h = h
  handle-Kept d (open_delete i) a b h = (
    deletable-HasUnvoted (get_elem? d.candidates i) i d.candidates refl h.1 (ground arith),
    h.1,
    h.2,
  )
  handle-Kept d cancel_edit a b h = h
  handle-Kept d cancel_delete a b h = (tt, h.1, h.2)
  handle-Kept d confirm_delete a b h = confirm-Kept d.delete_target d h.0 h
  handle-Kept d open_password a b h = h
  handle-Kept d close_password a b h = h
  handle-Kept d (submit_add v) a b h =
      (h.0, h.1, (add_candidate-IsUnvoted v.name v.description v.image_file, h.2))
  handle-Kept d (submit_edit v) a b h = update-Kept d.edit_target v d refl h
  handle-Kept d (fetched k id r) a b h = fetched-Kept k id r d (Brings-Got k id r b) h
  handle-Kept d (add_answer id (ok u)) a b h = (h.0, h.1, (get_all-IsUnvoted, h.2))
  handle-Kept d (add_answer id (failed f)) a b h = h
  handle-Kept d (update_answer id (ok u)) a b h = (h.0, h.1, (get_all-IsUnvoted, h.2))
  handle-Kept d (update_answer id (failed f)) a b h = h
  handle-Kept d (delete_answer id r) a b h = deleted-Kept d.deletes id r d refl h

  step-Kept : (d : Dashboard) (e : Event) → Brings e → Kept d → Kept (step d e)
  unfolding step
  step-Kept d e b h = elim (Bool-cases (enabled d e)) [
    | inl a ↦ rw a (handle-Kept d e a b h)
    | inr a ↦ rw a h
  ]

  run-Kept : (d : Dashboard) (es : List Event) → All Brings es → Kept d → Kept (run d es)
  unfolding run
  run-Kept d [] bs h = h
  run-Kept d (e ∷ es) (b, bs) h = run-Kept (step d e) es bs (step-Kept d e b h)

  mounted-Kept : (p : Provider) → Kept (mounted p)
  unfolding mounted fetch_candidates
  mounted-Kept p = (tt, tt, (get_all-IsUnvoted, tt))

In-append : (c : Candidate) (xs ys : List Candidate) → In c ys → In c (xs ++ ys)
In-append c [] ys h = h
In-append c (x ∷ xs) ys h = inr (In-append c xs ys h)

append-In : (c : Candidate) (xs ys : List Candidate) → In c xs → In c (xs ++ ys)
append-In c [] ys h = absurd h
append-In c (x ∷ xs) ys (inl e) = inl e
append-In c (x ∷ xs) ys (inr h) = inr (append-In c xs ys h)

All-here :
    {P : Candidate → Type 0} (l : List Candidate) → ((c : Candidate) → In c l → P c) → All P l
All-here [] h = tt
All-here (x ∷ l) h = (h x (inl refl), All-here l (λ c i. h c (inr i)))

all_listed-Brings :
    (P : Candidate → Type 0) (es : List Event)
    → ((c : Candidate) → In c (all_listed es) → P c)
    → All (Brings P) es
unfolding all_listed
all_listed-Brings P [] h = tt
all_listed-Brings P (e ∷ es) h = (
  All-here (listed e) (λ c i. h c (append-In c (listed e) (all_listed es) i)),
  all_listed-Brings P es (λ c i. h c (In-append c (listed e) (all_listed es) i)),
)

-- Each deletion that the dashboard sends is of a candidate that the server has listed, in this run and
-- with no vote, whatever the administrator does and the server answers.
pub deletions-IsUnvoted :
    (p : Provider) (es : List Event)
    → All (IsUnvoted (λ c. In c (all_listed es))) (run (mounted p) es).sent
deletions-IsUnvoted p es =
    (run-Kept (λ c. In c (all_listed es)) (mounted p) es
      (all_listed-Brings (λ c. In c (all_listed es)) es (λ c i. i))
      (mounted-Kept (λ c. In c (all_listed es)) p)).2
