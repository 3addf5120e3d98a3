-- ===== src/Admin/Domains/Writes.antt =====
-- The card's writes: how many are in flight.
use voting_app.Prelude.{
  length, ◌≡◌, [], Bool-cases, inl, arith, inr, if◌then◌else◌, ◌==◌, ◌+◌, refl, List, ◌∷◌, ℕ, true,
  false, none, get_elem?, some,
}
use voting_app.Admin.Domains.{
  Domains, Event, step, run, mounted, handle, enabled, click_delete, delete_answer, delete_at,
  mode_answered, delete_answered, domains_fetched, fetch_domains, handle_delete_domain, status_got,
  domain_deleted, handle_toggle_mode, mode_toggled, handle_add_domain, domain_added,
}
use voting_app.Api.{or_empty, failed, Failure, delete_domain}
use voting_app.Toasts.{Provider}
use voting_app.Types.{CustomDomain}

-- The switch is busy exactly while a mode is in flight, and the input exactly while a domain or the
-- list asked for after it is; there is one of each at most.
abbrev pub Single : Domains → Type 0
Single d =
    (length d.modes ≡ (if d.mode_loading then 1 else 0))
    × (d.adds + d.add_lists ≡ (if d.add_loading then 1 else 0))

handle-Single : (d : Domains) (e : Event) → enabled d e ≡ true → Single d → Single (handle d e)
unfolding handle enabled delete_at mode_answered delete_answered domains_fetched status_got
    handle_toggle_mode mode_toggled handle_add_domain domain_added handle_delete_domain
    domain_deleted fetch_domains or_empty
handle-Single d e a h = ground arith

step-Single : (d : Domains) (e : Event) → Single d → Single (step d e)
unfolding step
step-Single d e h = elim (Bool-cases (enabled d e)) [
  | inl a ↦ rw a (handle-Single d e a h)
  | inr a ↦ rw a h
]

run_keeps : (d : Domains) (es : List Event) → Single d → Single (run d es)
unfolding run
run_keeps d [] h = h
run_keeps d (e ∷ es) h = run_keeps (step d e) es (step-Single d e h)

mounted-Single : (p : Provider) → Single (mounted p)
unfolding mounted fetch_domains
mounted-Single p = (refl, refl)

-- Whatever the administrator does and the server answers, the switch has at most one mode in flight
-- and the input at most one domain, counting the list asked for after it, and each is busy exactly
-- as long.
pub in_flight-Single : (p : Provider) (es : List Event) → Single (run (mounted p) es)
in_flight-Single p es = run_keeps (mounted p) es (mounted-Single p)

-- What the code does with two deletions at once: if nothing is being deleted, two different domains
-- of the list are deleted one after the other, and the first deletion fails while the second is in
-- flight, then the second domain's button works again and sends its deletion once more.
pub deletion_repeats :
    (d : Domains) (i j id : ℕ) (a b : CustomDomain) (f : Failure)
    → d.domains_loading ≡ false
    → d.delete_loading_id ≡ none
    → d.deletes ≡ []
    → get_elem? d.domains i ≡ some a
    → get_elem? d.domains j ≡ some b
    → (a.id == b.id) ≡ false
    → (run d (
        click_delete i ∷ click_delete j ∷ delete_answer 1 id (failed f) ∷ click_delete j ∷ [])).sent
      ≡ delete_domain b.id ∷ delete_domain b.id ∷ delete_domain a.id ∷ d.sent
unfolding run step handle enabled delete_at delete_answered handle_delete_domain domain_deleted
deletion_repeats d i j id a b f l n e x y z = ground arith
