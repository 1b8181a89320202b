-- ===== src/Wait/Listing.antt =====
-- packages/engine/src/wait/wait-machine.ts: `getExpiredWaits`, `getDueWaits` and `listExternalJobWaits`
--
-- A listing's entry is the run, the step and the wait of a row.
use aart.Base.{
  ◌⊎◌, ◌↔◌, ℕ, ◌+◌, ◌≤◌, ◌≡◌, refl, subst, ap, sym, ◌∙◌, inl, inr, Bool, true, false, Option, none,
  some, List, [], ◌∷◌, Text, filter, map, if◌then◌else◌, leb, leb→le, Result, ok, err, ◌>>=◌,
  >>=-eq-ok, Result-cases, ok_inj, Bool-cases, arith, Member,
}
use aart.Duration.{parse_duration_ms}
use aart.Wait.{
  WaitCondition, approval, signal, webhook, external_job, queue, timer, manual, timeout_of,
  WaitError, invalid_duration,
}
use aart.Wait.Store.{StoredWait, Store, list_due}

abbrev pub DueWait : Type 0
DueWait = Text × (Text × WaitCondition)

abbrev pub due_of : StoredWait → DueWait
due_of w = (w.run_id, (w.step_id, w.wait))

-- The deadline that a row's timeout sets, if it has one; an empty timeout is none.
abbrev pub deadline_at : ℕ → Option Text → Result WaitError (Option ℕ)
deadline_at created_at none = ok none
deadline_at created_at (some []) = ok none
deadline_at created_at (some (c ∷ duration)) = elim (parse_duration_ms (c ∷ duration)) [
  | none ↦ err (invalid_duration (c ∷ duration))
  | some ms ↦ ok (some (created_at + ms))
]

abbrev pub has_passed : ℕ → Option ℕ → Bool
has_passed now none = false
has_passed now (some deadline) = leb deadline now

abbrev pub deadline_of : StoredWait → Result WaitError (Option ℕ)
deadline_of w = deadline_at w.created_at (timeout_of w.wait)

unfoldable pub expired_rows : ℕ → List StoredWait → Result WaitError (List StoredWait)
expired_rows now [] = ok []
expired_rows now (w ∷ rows) = do
  deadline ← deadline_of w
  rest ← expired_rows now rows
  ok (if has_passed now deadline then w ∷ rest else rest)

unfoldable pub get_expired_waits : ℕ → Store → Result WaitError (List DueWait)
get_expired_waits now s = do rows ← expired_rows now s.waits; ok (map due_of rows)

abbrev pub is_timer : WaitCondition → Bool
is_timer (timer resume_at version) = true
is_timer (approval task_id timeout version) = false
is_timer (signal name correlation_id timeout version) = false
is_timer (webhook event correlation_id timeout version) = false
is_timer (external_job provider job_id timeout version) = false
is_timer (queue name correlation_id timeout version) = false
is_timer (manual timeout version) = false

-- `now` is the text of the time.
unfoldable pub get_due_waits : Text → Store → List DueWait
get_due_waits now s = map due_of (filter (λ w. is_timer w.wait) (list_due now s))

abbrev pub is_external_job : WaitCondition → Bool
is_external_job (external_job provider job_id timeout version) = true
is_external_job (timer resume_at version) = false
is_external_job (approval task_id timeout version) = false
is_external_job (signal name correlation_id timeout version) = false
is_external_job (webhook event correlation_id timeout version) = false
is_external_job (queue name correlation_id timeout version) = false
is_external_job (manual timeout version) = false

unfoldable pub list_external_job_waits : Store → List StoredWait
list_external_job_waits s = filter (λ w. is_external_job w.wait) s.waits

-- A row's deadline has come.
abbrev pub IsExpired : ℕ → StoredWait → Type 0
IsExpired now w = (deadline : ℕ) × ((deadline_of w ≡ ok (some deadline)) × (deadline ≤ now))

chosen_sound :
    (now : ℕ) (v w : StoredWait) (rows rest : List StoredWait) (deadline : Option ℕ)
    → deadline_of v ≡ ok deadline
    → (Member w rest → Member w rows × IsExpired now w)
    → Member w (if has_passed now deadline then v ∷ rest else rest)
    → Member w (v ∷ rows) × IsExpired now w
chosen_sound now v w rows rest none e later k = let (n, d) = later k in (inr n, d)
chosen_sound now v w rows rest (some d) e later k = elim (Bool-cases (leb d now)) [
  | inl p ↦ elim (subst (λ b. Member w (if b then v ∷ rest else rest)) p k) [
    | inl same ↦ (inl same, (d, (ap deadline_of same ∙ e, leb→le d now p)))
    | inr n ↦ let (m, x) = later n in (inr m, x)
  ]
  | inr p ↦
      let (m, x) = later (subst (λ b. Member w (if b then v ∷ rest else rest)) p k) in (inr m, x)
]

expired_rows_sound :
    (now : ℕ) (rows es : List StoredWait) (w : StoredWait)
    → expired_rows now rows ≡ ok es
    → Member w es
    → Member w rows × IsExpired now w
unfolding expired_rows
expired_rows_sound now [] es w h m = absurd (subst (Member w) (sym (ok_inj h)) m)
expired_rows_sound now (v ∷ rows) es w h m =
    let (deadline, e, h1) = >>=-eq-ok (deadline_of v) _ h in
    let (rest, f, h2) = >>=-eq-ok (expired_rows now rows) _ h1 in
    chosen_sound now v w rows rest deadline e (expired_rows_sound now rows rest w f)
      (subst (Member w) (sym (ok_inj h2)) m)

chosen_complete :
    (now : ℕ) (v w : StoredWait) (rest : List StoredWait) (deadline : Option ℕ)
    → deadline_of v ≡ ok deadline
    → Member w rest ⊎ ((w ≡ v) × IsExpired now w)
    → Member w (if has_passed now deadline then v ∷ rest else rest)
chosen_complete now v w rest deadline e (inl m) = elim (Bool-cases (has_passed now deadline)) [
  | inl p ↦ rw p (inr m)
  | inr p ↦ rw p m
]
chosen_complete now v w rest deadline e (inr (same, (d, (f, l)))) =
    let known : deadline ≡ some d = ok_inj (sym e ∙ ap deadline_of (sym same) ∙ f) in
    let passed : has_passed now deadline ≡ true = rw known (ground arith) in rw passed (inl same)

expired_rows_complete :
    (now : ℕ) (rows es : List StoredWait) (w : StoredWait)
    → expired_rows now rows ≡ ok es
    → Member w rows
    → IsExpired now w
    → Member w es
unfolding expired_rows
expired_rows_complete now [] es w h m x = absurd m
expired_rows_complete now (v ∷ rows) es w h m x =
    let (deadline, e, h1) = >>=-eq-ok (deadline_of v) _ h in
    let (rest, f, h2) = >>=-eq-ok (expired_rows now rows) _ h1 in
    subst (Member w) (ok_inj h2) (
      chosen_complete now v w rest deadline e (elim m [
        | inl same ↦ inr (same, x)
        | inr n ↦ inl (expired_rows_complete now rows rest w f n x)
      ]))

-- A malformed timeout stops the listing.
expired_rows-err :
    (now : ℕ) (rows : List StoredWait) (w : StoredWait) (e : WaitError)
    → Member w rows
    → deadline_of w ≡ err e
    → (f : WaitError) × (expired_rows now rows ≡ err f)
unfolding expired_rows
expired_rows-err now [] w e m h = absurd m
expired_rows-err now (v ∷ rows) w e (inl same) h =
    (e, rw (ap deadline_of (sym same) ∙ h, expired_rows) refl)
expired_rows-err now (v ∷ rows) w e (inr m) h = elim (Result-cases (deadline_of v)) [
  | inl (g, p) ↦ (g, rw (p, expired_rows) refl)
  | inr (d, p) ↦ let (f, q) = expired_rows-err now rows w e m h in (f, rw (p, q, expired_rows) refl)
]

-- The listing of expired waits, where it does not throw, is that of the rows with a timeout whose
-- deadline, the time of creation and the timeout, is not behind the time: it lists each of them, and
-- nothing else.
pub get_expired_waits-exact :
    (now : ℕ) (s : Store) (es : List DueWait)
    → get_expired_waits now s ≡ ok es
    → (rows : List StoredWait) × ((es ≡ map due_of rows)
        × ((w : StoredWait) → Member w rows ↔ (Member w s.waits × IsExpired now w)))
unfolding get_expired_waits
get_expired_waits-exact now s es h =
    let (rows, e, h1) = >>=-eq-ok (expired_rows now s.waits) _ h in
    (
      rows,
      (
        sym (ok_inj h1),
        λ w. (
          expired_rows_sound now s.waits rows w e,
          λ m. expired_rows_complete now s.waits rows w e m.0 m.1,
        ),
      ),
    )

-- One outstanding wait with a timeout that is no duration makes the listing of all expired waits throw,
-- whatever the other waits are.
pub get_expired_waits-malformed :
    (now : ℕ) (s : Store) (w : StoredWait) (c : ℕ) (duration : Text)
    → Member w s.waits
    → timeout_of w.wait ≡ some (c ∷ duration)
    → parse_duration_ms (c ∷ duration) ≡ none
    → (f : WaitError) × (get_expired_waits now s ≡ err f)
unfolding get_expired_waits
get_expired_waits-malformed now s w c duration m t p =
    let bad : deadline_of w ≡ err (invalid_duration (c ∷ duration)) =
      ap (deadline_at w.created_at) t ∙ rw (p, deadline_at) refl in
    let (f, e) = expired_rows-err now s.waits w (invalid_duration (c ∷ duration)) m bad in
    (f, rw e refl)
