-- ===== src/Wait/Once.antt =====
-- However many attempts race for a wait, one of them at most resumes it:
-- packages/engine/src/wait/wait-machine.ts
use aart.Base.{
  ℕ, ◌≤◌, ◌≡◌, refl, ap, ◌∙◌, inl, inr, Bool, true, false, not, ◌&&◌, none, some, List, [], ◌∷◌,
  Text, text_eq, text_eq_sound, filter, find, Result-cases, Bool-cases, arith, Option, Option-cases,
  false≢true,
}
use aart.Wait.{Signal}
use aart.Wait.Store.{StoredWait, Store, get_run, get_wait, is_row, find_signal_matches}
use aart.Wait.Machine.{Prepare, Layer}
use aart.Wait.Resume.{
  is_completed, is_ended, ResumeOutcome, ClaimArgs, claim_and_complete_wait, fail_expired_wait,
}
use aart.Wait.Mechanisms.{resume_match, resume_by_signal}
use aart.Wait.Claims.{without_row-resumes, resumes}
use aart.Wait.Attempts.{
  Attempt, claim, expiry, delivery, store_after, is_resumed, target_of_match, target, is_on,
  attempt, times_resumed, Did, attempt-Did,
}

-- A filter adds no row that a search finds.
find-filter-none :
    {A : Type 0} (p q : A → Bool) (xs : List A) → find p xs ≡ none → find p (filter q xs) ≡ none
find-filter-none p q [] h = refl
find-filter-none p q (x ∷ xs) h = elim (Bool-cases (p x)) [
  | inl e ↦ absurd (ground arith)
  | inr e ↦ elim (Bool-cases (q x)) [
    | inl f ↦ rw (f, e) (find-filter-none p q xs (rw e at h))
    | inr f ↦ rw f (find-filter-none p q xs (rw e at h))
  ]
]

find-filter-not :
    {A : Type 0} (p : A → Bool) (xs : List A) → find p (filter (λ x. not (p x)) xs) ≡ none
find-filter-not p [] = refl
find-filter-not p (x ∷ xs) = elim (Bool-cases (p x)) [
  | inl e ↦ rw e (find-filter-not p xs)
  | inr e ↦ rw (e, e) (find-filter-not p xs)
]

no_row-filter :
    (run_id step_id r k : Text) (s t : Store)
    → get_wait run_id step_id s ≡ none
    → t.waits ≡ filter (λ w. not (is_row r k w)) s.waits
    → get_wait run_id step_id t ≡ none
unfolding get_wait
no_row-filter run_id step_id r k s t h e =
    ap (find (is_row run_id step_id)) e
    ∙ find-filter-none (is_row run_id step_id) (λ w. not (is_row r k w)) s.waits h

row_gone :
    (run_id step_id : Text) (s t : Store)
    → t.waits ≡ filter (λ w. not (is_row run_id step_id w)) s.waits
    → get_wait run_id step_id t ≡ none
unfolding get_wait
row_gone run_id step_id s t e =
    ap (find (is_row run_id step_id)) e ∙ find-filter-not (is_row run_id step_id) s.waits

module _ (layer : Layer) (run_id step_id : Text) where
  Did-no_row :
      (wait : Option (Text × Text)) (s t : Store) (o : ResumeOutcome)
      → Did layer wait s t o
      → get_wait run_id step_id s ≡ none
      → get_wait run_id step_id t ≡ none
  Did-no_row none s t o (e, r) h = ap (get_wait run_id step_id) e ∙ h
  Did-no_row (some (r, k)) s t o (inl (e, f)) h = ap (get_wait run_id step_id) e ∙ h
  Did-no_row (some (r, k)) s t o (inr (e, c)) h = no_row-filter run_id step_id r k s t h e

  -- An attempt that resumes the wait removes its row.
  Did-row_gone :
      (wait : Option (Text × Text)) (s t : Store) (o : ResumeOutcome)
      → Did layer wait s t o
      → (is_on run_id step_id wait && resumes o) ≡ true
      → get_wait run_id step_id t ≡ none
  Did-row_gone none s t o d h = absurd (false≢true h)
  Did-row_gone (some (r, k)) s t o (inl (e, f)) h = absurd (ground arith)
  Did-row_gone (some (r, k)) s t o (inr (e, c)) h =
      let same_run : text_eq r run_id ≡ true = ground arith in
      let same_step : text_eq k step_id ≡ true = ground arith in
      row_gone run_id step_id s t (
        e
        ∙ ap (λ a. filter (λ w. not (is_row a k w)) s.waits) (text_eq_sound r run_id same_run)
        ∙ ap (λ b. filter (λ w. not (is_row run_id b w)) s.waits)
            (text_eq_sound k step_id same_step))

  attempt-no_row :
      (a : Attempt) (s : Store)
      → get_wait run_id step_id s ≡ none
      → get_wait run_id step_id (store_after s (attempt layer a s)) ≡ none
  attempt-no_row a s h = elim (Result-cases (attempt layer a s)) [
    | inl (e, f) ↦ rw f h
    | inr ((t, o), f) ↦ rw f (Did-no_row (target a s) s t o (attempt-Did layer a s t o f) h)
  ]

  attempt-row_gone :
      (a : Attempt) (s : Store)
      → (is_on run_id step_id (target a s) && is_resumed (attempt layer a s)) ≡ true
      → get_wait run_id step_id (store_after s (attempt layer a s)) ≡ none
  attempt-row_gone a s h = elim (Result-cases (attempt layer a s)) [
    | inl (e, f) ↦ absurd (ground arith)
    | inr ((t, o), f) ↦
        rw f (Did-row_gone (target a s) s t o (attempt-Did layer a s t o f) (rw f at h))
  ]

module _ (layer : Layer) where
  claim-no_row :
      (args : ClaimArgs) (now : ℕ) (s : Store)
      → get_wait args.run_id args.step_id s ≡ none
      → is_resumed (claim_and_complete_wait layer args now s) ≡ false
  unfolding claim_and_complete_wait
  claim-no_row args now s h = elim (Option-cases (get_run args.run_id s)) [
    | inl e ↦ rw (e, is_resumed, claim_and_complete_wait) refl
    | inr (run, e) ↦
        rw (e, h, is_resumed, claim_and_complete_wait)
          (without_row-resumes layer args.step_id is_completed run)
  ]

  expiry-no_row :
      (error_message : Text → Text) (run_id step_id : Text) (secrets : List Text) (now : ℕ)
      (s : Store)
      → get_wait run_id step_id s ≡ none
      → is_resumed (fail_expired_wait layer error_message run_id step_id secrets now s) ≡ false
  unfolding fail_expired_wait
  expiry-no_row error_message run_id step_id secrets now s h =
      elim (Option-cases (get_run run_id s)) [
        | inl e ↦ rw (e, is_resumed, fail_expired_wait) refl
        | inr (run, e) ↦
            rw (e, h, is_resumed, fail_expired_wait)
              (without_row-resumes layer step_id (is_ended layer) run)
      ]

  module _ (run_id step_id : Text) where
    -- An attempt on a wait with the run and the step is on that row.
    same_row :
        (r k : Text) (s : Store)
        → (text_eq r run_id && text_eq k step_id) ≡ true
        → get_wait run_id step_id s ≡ none
        → get_wait r k s ≡ none
    same_row r k s e h =
        let same_run : text_eq r run_id ≡ true = ground arith in
        let same_step : text_eq k step_id ≡ true = ground arith in
        ap (λ a. get_wait a k s) (text_eq_sound r run_id same_run)
        ∙ ap (λ b. get_wait run_id b s) (text_eq_sound k step_id same_step)
        ∙ h

    match-no_row :
        (sent : Signal) (secrets : List Text) (prepare : Prepare) (now : ℕ) (ws : List StoredWait)
        (s : Store)
        → get_wait run_id step_id s ≡ none
        → is_on run_id step_id (target_of_match ws) ≡ true
        → is_resumed (resume_match layer sent secrets prepare now ws s) ≡ false
    match-no_row sent secrets prepare now [] s h e = refl
    match-no_row sent secrets prepare now (w ∷ []) s h e =
        claim-no_row _ now s (same_row w.run_id w.step_id s e h)
    match-no_row sent secrets prepare now (w ∷ v ∷ ws) s h e = refl

    not_resumed :
        (a : Attempt) (s : Store)
        → get_wait run_id step_id s ≡ none
        → is_on run_id step_id (target a s) ≡ true
        → is_resumed (attempt layer a s) ≡ false
    unfolding resume_by_signal
    not_resumed (claim args now) s h e =
        claim-no_row args now s (same_row args.run_id args.step_id s e h)
    not_resumed (expiry error_message r k secrets now) s h e =
        expiry-no_row error_message r k secrets now s (same_row r k s e h)
    not_resumed (delivery sent secrets prepare now) s h e =
        match-no_row sent secrets prepare now (find_signal_matches sent.name sent.correlation_id s)
          s h e

    never_resumed :
        (attempts : List Attempt) (s : Store)
        → get_wait run_id step_id s ≡ none
        → times_resumed layer run_id step_id attempts s ≡ 0
    never_resumed [] s h = refl
    never_resumed (a ∷ attempts) s h = elim (Bool-cases (is_on run_id step_id (target a s))) [
      | inl e ↦
          rw (e, not_resumed a s h e)
            (never_resumed attempts (store_after s (attempt layer a s))
              (attempt-no_row layer run_id step_id a s h))
      | inr e ↦ rw e (
          never_resumed attempts (store_after s (attempt layer a s))
            (attempt-no_row layer run_id step_id a s h))
    ]

-- Of any sequence of attempts on outstanding waits, claims of every mechanism, deliveries of signals and
-- expiries, in any order and at any times, at most one resumes the wait of a given step of a given run,
-- as long as the step does not enter a wait again between them. No condition is on the store.
pub times_resumed-le :
    (layer : Layer) (run_id step_id : Text) (attempts : List Attempt) (s : Store)
    → times_resumed layer run_id step_id attempts s ≤ 1
times_resumed-le layer run_id step_id [] s = omega arith
times_resumed-le layer run_id step_id (a ∷ attempts) s =
    let rest = times_resumed-le layer run_id step_id attempts (store_after s (attempt layer a s)) in
    elim (Bool-cases (is_on run_id step_id (target a s) && is_resumed (attempt layer a s))) [
      | inl e ↦
          let gone =
            never_resumed layer run_id step_id attempts (store_after s (attempt layer a s))
              (attempt-row_gone layer run_id step_id a s e) in
          rw (e, gone) (omega arith)
      | inr e ↦ rw e rest
    ]
