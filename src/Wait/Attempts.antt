-- ===== src/Wait/Attempts.antt =====
-- The attempts to resolve an outstanding wait, in a sequence: packages/engine/src/wait/wait-machine.ts
-- runs each in a transaction of its own, so that one that throws leaves the store as it was.
use aart.Base.{
  ℕ, suc, ◌≡◌, ap, sym, Bool, false, ◌&&◌, none, some, List, [], ◌∷◌, Text, text_eq, if◌then◌else◌,
  ok, err, err-ne-ok, ok_inj, Option,
}
use aart.Wait.{Signal}
use aart.Wait.Store.{StoredWait, Store, find_signal_matches}
use aart.Wait.Machine.{Prepare, Layer}
use aart.Wait.Resume.{
  ResumeOutcome, Transition, ClaimArgs, claim_and_complete_wait, fail_expired_wait,
}
use aart.Wait.Mechanisms.{resume_match, resume_by_signal}
use aart.Wait.Claims.{resumes, Touches, claim_and_complete_wait-Touches, fail_expired_wait-Touches}

-- One call of the machine on an outstanding wait, at its time.
pub data Attempt : Type 0 where
  claim : ClaimArgs → ℕ → Attempt
  expiry : (Text → Text) → Text → Text → List Text → ℕ → Attempt
  delivery : Signal → List Text → Prepare → ℕ → Attempt

-- The store behind a transition: an error takes its writes back.
abbrev pub store_after : Store → Transition → Store
store_after s (ok (t, o)) = t
store_after s (err e) = s

abbrev pub is_resumed : Transition → Bool
is_resumed (ok (t, o)) = resumes o
is_resumed (err e) = false

-- The wait that an attempt is on.
abbrev pub target_of_match : List StoredWait → Option (Text × Text)
target_of_match [] = none
target_of_match (w ∷ []) = some (w.run_id, w.step_id)
target_of_match (w ∷ v ∷ ws) = none

abbrev pub target : Attempt → Store → Option (Text × Text)
target (claim args now) s = some (args.run_id, args.step_id)
target (expiry error_message run_id step_id secrets now) s = some (run_id, step_id)
target (delivery sent secrets prepare now) s =
    target_of_match (find_signal_matches sent.name sent.correlation_id s)

abbrev pub is_on : Text → Text → Option (Text × Text) → Bool
is_on run_id step_id none = false
is_on run_id step_id (some (r, t)) = text_eq r run_id && text_eq t step_id

module _ (layer : Layer) where
  abbrev pub attempt : Attempt → Store → Transition
  attempt (claim args now) s = claim_and_complete_wait layer args now s
  attempt (expiry error_message run_id step_id secrets now) s =
      fail_expired_wait layer error_message run_id step_id secrets now s
  attempt (delivery sent secrets prepare now) s = resume_by_signal layer sent secrets prepare now s

  -- How many of the attempts, made one after the other, resume the wait of a step.
  abbrev pub times_resumed : Text → Text → List Attempt → Store → ℕ
  times_resumed run_id step_id [] s = 0
  times_resumed run_id step_id (a ∷ attempts) s =
      let rest = times_resumed run_id step_id attempts (store_after s (attempt a s)) in
      if is_on run_id step_id (target a s) && is_resumed (attempt a s) then suc rest else rest

  -- What an attempt did, by its target.
  abbrev pub Did : Option (Text × Text) → Store → Store → ResumeOutcome → Type 0
  Did none s t o = (t ≡ s) × (resumes o ≡ false)
  Did (some (run_id, step_id)) s t o = Touches run_id step_id s t o

  match-Did :
      (sent : Signal) (secrets : List Text) (prepare : Prepare) (now : ℕ) (ws : List StoredWait)
      (s t : Store) (o : ResumeOutcome)
      → resume_match layer sent secrets prepare now ws s ≡ ok (t, o)
      → Did (target_of_match ws) s t o
  match-Did sent secrets prepare now [] s t o h =
      let same = ok_inj h in (sym (ap (λ q. q.0) same), sym (ap (λ q. resumes q.1) same))
  match-Did sent secrets prepare now (w ∷ []) s t o h =
      claim_and_complete_wait-Touches layer _ now s t o h
  match-Did sent secrets prepare now (w ∷ v ∷ ws) s t o h = absurd (err-ne-ok h)

  pub attempt-Did :
      (a : Attempt) (s t : Store) (o : ResumeOutcome)
      → attempt a s ≡ ok (t, o)
      → Did (target a s) s t o
  unfolding resume_by_signal
  attempt-Did (claim args now) s t o h = claim_and_complete_wait-Touches layer args now s t o h
  attempt-Did (expiry error_message run_id step_id secrets now) s t o h =
      fail_expired_wait-Touches layer error_message run_id step_id secrets now s t o h
  attempt-Did (delivery sent secrets prepare now) s t o h =
      match-Did sent secrets prepare now (find_signal_matches sent.name sent.correlation_id s) s t o
        h
