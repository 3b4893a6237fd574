-- ===== src/Ratelimit/Backoff/Laws.antt =====
-- The registry seen as a counter of attempts and a time for each domain.
use sendit.Prelude.{
  refl, sym, ap, ◌∙◌, ◌⊎◌, inl, inr, true, Option, Bool-cases, Option-cases, ℕ, ◌+◌, ◌≡◌, Bool,
  false, ◌&&◌, none, some, if◌then◌else◌, leb, arith,
}
use sendit.Prelude.Int.{pos, ◌+ℤ◌, ◌-ℤ◌, -ℤ_parts, leb_ℤ, pos_part}
use sendit.Prelude.Text.{Text, text_eq, text_eq_iff}
use sendit.Prelude.Assoc.{lookup, lookup-insert, lookup-delete}
use sendit.Ratelimit.Backoff.{
  DomainBackoff, BackoffRegistry, bumped, attempts, record_error, record_success, entry, with_entry,
  wait,
}

-- An error counts one attempt for its domain, and for no other.
pub attempts-record_error :
    (b : BackoffRegistry) (d j : Text) (now r : ℕ)
    → attempts (record_error b d now r).0 j
      ≡ (if text_eq d j then attempts b d + 1 else attempts b j)
unfolding attempts record_error
attempts-record_error b d j now r = ground (arith, lookup-insert d j (bumped b d now r) b.domains)

-- An entry that is found or made changes no attempts.
pub attempts-with_entry :
    (b : BackoffRegistry) (d j : Text) → attempts (with_entry b d) j ≡ attempts b j
unfolding attempts with_entry
attempts-with_entry b d j = ground (arith, lookup-insert d j (entry b d) b.domains, text_eq_iff d j)

-- A success forgets its domain, and no other.
pub attempts-record_success :
    (b : BackoffRegistry) (d j : Text)
    → attempts (record_success b d) j ≡ (if text_eq d j then 0 else attempts b j)
unfolding attempts record_success
attempts-record_success b d j = ground (arith, lookup-delete d j b.domains)

-- Whether `Wait` evicts the entry of a domain: its delay has been served, and its attempts are
-- used up.
abbrev pub is_spent : BackoffRegistry → Text → ℕ → Bool
is_spent b d now = elim (lookup d b.domains) [
  | none ↦ false
  | some e ↦ leb_ℤ e.next_allowed (pos now) && leb b.max_attempts e.attempts
]

-- `Wait` forgets its domain exactly when that is spent, and no other domain ever.
pub attempts-wait :
    (b : BackoffRegistry) (d j : Text) (now : ℕ)
    → attempts (wait b d now).0 j ≡ (if is_spent b d now && text_eq d j then 0 else attempts b j)
unfolding attempts wait
attempts-wait b d j now = ground (arith, lookup-delete d j b.domains)

-- How long `Wait` sleeps for an entry.
left_of : Option DomainBackoff → ℕ → ℕ
left_of none now = 0
left_of (some e) now = pos_part (e.next_allowed -ℤ pos now)

wait-left_of :
    (b : BackoffRegistry) (j : Text) (now : ℕ) → (wait b j now).1 ≡ left_of (lookup j b.domains) now
unfolding wait left_of
wait-left_of b j now = elim (Option-cases (lookup j b.domains)) [
  | inl gone ↦ ground (arith, gone)
  | inr (e, there) ↦ ground (arith, there, -ℤ_parts e.next_allowed (pos now))
]

-- After an error at the time `now`, a `Wait` for the domain at any time `later` sleeps for what
-- is left of the delay that `RecordError` returned, and a `Wait` for another domain sleeps as
-- long as it would have without the error.
pub wait-record_error :
    (b : BackoffRegistry) (d j : Text) (now r later : ℕ)
    → (wait (record_error b d now r).0 j later).1 ≡ (
        if text_eq d j
        then pos_part ((pos now +ℤ (record_error b d now r).1) -ℤ pos later)
        else (wait b j later).1)
unfolding record_error left_of bumped
wait-record_error b d j now r later =
    wait-left_of (record_error b d now r).0 j later
    ∙ ap (λ e. left_of e later) (lookup-insert d j (bumped b d now r) b.domains)
    ∙ by_host (Bool-cases (text_eq d j))
  where
    by_host :
        (text_eq d j ≡ true) ⊎ (text_eq d j ≡ false)
        → left_of (if text_eq d j then some (bumped b d now r) else lookup j b.domains) later ≡ (
            if text_eq d j
            then pos_part ((pos now +ℤ (record_error b d now r).1) -ℤ pos later)
            else (wait b j later).1)
    by_host (inl same) = rw same refl
    by_host (inr other) = rw other (sym (wait-left_of b j later))

-- After a success the domain is not held back.
pub wait-record_success :
    (b : BackoffRegistry) (d j : Text) (now : ℕ)
    → (wait (record_success b d) j now).1 ≡ (if text_eq d j then 0 else (wait b j now).1)
unfolding wait record_success
wait-record_success b d j now = ground (arith, lookup-delete d j b.domains)
