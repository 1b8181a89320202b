-- ===== src/Governance/Subjects.antt =====
-- packages/governance/src/approval-tasks.ts: `workflowVersionApprovalSubject` and its decoding
use aart.Base.{
  ℕ, ◌-◌, ◌≡◌, refl, ap, sym, ◌∙◌, inl, inr, Bool, true, false, ◌&&◌, Option, none, some, List, [],
  ◌∷◌, ◌++◌, reverse, Text, text_eq, codes, starts_with, length, take, drop, has, find, ◌==◌,
  ==_self, if◌then◌else◌, Bool-cases, Option-cases, none-ne-some, some_inj, false≢true, arith,
}
use aart.Governance.{GateName, validate, readiness, evals, risk_review, human_review}

-- The names of `GATE_NAMES`.
abbrev pub gate_text : GateName → Text
gate_text validate = codes "validate"
gate_text readiness = codes "readiness"
gate_text evals = codes "evals"
gate_text risk_review = codes "riskReview"
gate_text human_review = codes "humanReview"

abbrev pub gate_names : List GateName
gate_names = validate ∷ readiness ∷ evals ∷ risk_review ∷ human_review ∷ []

abbrev pub subject_prefix : Text
subject_prefix = codes "workflow-version:"

abbrev pub subject_step_prefix : Text
subject_step_prefix = codes "__gate:"

abbrev pub subject_step_suffix : Text
subject_step_suffix = codes "__"

pub record Subject : Type 0 where
  pub run_id : Text
  pub step_id : Text

pub record Decoded : Type 0 where
  pub workflow_id : Text
  pub workflow_version : Text
  pub gate : GateName

unfoldable pub workflow_version_approval_subject : Text → Text → GateName → Subject
workflow_version_approval_subject workflow_id workflow_version gate = record {
  run_id = subject_prefix ++ (workflow_id ++ (codes "@" ++ workflow_version));
  step_id = subject_step_prefix ++ (gate_text gate ++ subject_step_suffix);
}

-- `String.prototype.endsWith`.
abbrev pub ends_with : Text → Text → Bool
ends_with s t = starts_with (reverse s) (reverse t)

-- What stands between the prefix and the suffix of a step id.
abbrev pub gate_candidate : Text → Text
gate_candidate step_id =
    take (length step_id - length subject_step_suffix - length subject_step_prefix)
      (drop (length subject_step_prefix) step_id)

abbrev pub or_human_review : Option GateName → GateName
or_human_review none = human_review
or_human_review (some gate) = gate

unfoldable pub decode_gate_from_step_id : Option Text → GateName
decode_gate_from_step_id none = human_review
decode_gate_from_step_id (some step_id) =
    if starts_with step_id subject_step_prefix && ends_with step_id subject_step_suffix
    then or_human_review
        (find (λ gate. text_eq (gate_text gate) (gate_candidate step_id)) gate_names)
    else human_review

-- The text before the last `@`, and the text behind it.
abbrev pub split_last : ℕ → Text → Option (Text × Text)
split_last c [] = none
split_last c (d ∷ s) =
    let rest = split_last c s in
    elim rest [
      | some (before, after) ↦ some (d ∷ before, after)
      | none ↦ if d == c then some ([], s) else none
    ]

abbrev pub with_gate : GateName → Option (Text × Text) → Option Decoded
with_gate gate none = none
with_gate gate (some (workflow_id, workflow_version)) =
    some (record { workflow_id = workflow_id; workflow_version = workflow_version; gate = gate })

unfoldable pub decode_workflow_version_approval_subject : Text → Option Text → Option Decoded
decode_workflow_version_approval_subject run_id step_id =
    if starts_with run_id subject_prefix
    then with_gate (decode_gate_from_step_id step_id)
        (split_last b'@' (drop (length subject_prefix) run_id))
    else none

split_last_absent : (c : ℕ) (s : Text) → has c s ≡ false → split_last c s ≡ none
split_last_absent c [] h = refl
split_last_absent c (d ∷ s) h =
    let rest : split_last c s ≡ none = split_last_absent c s (ground arith) in
    let other : (d == c) ≡ false = ground arith in rw (rest, other, split_last) refl

split_last-append : (c : ℕ) (s t : Text) → has c t ≡ false → split_last c (s ++ c ∷ t) ≡ some (s, t)
split_last-append c [] t h = rw (split_last_absent c t h, ==_self c, split_last) refl
split_last-append c (d ∷ s) t h = rw (split_last-append c s t h, split_last) refl

decode_gate_lem :
    (id version : Text) (gate : GateName)
    → decode_gate_from_step_id (some (workflow_version_approval_subject id version gate).step_id)
      ≡ gate
unfolding decode_gate_from_step_id workflow_version_approval_subject
decode_gate_lem id version validate = refl
decode_gate_lem id version readiness = refl
decode_gate_lem id version evals = refl
decode_gate_lem id version risk_review = refl
decode_gate_lem id version human_review = refl

-- The subject of an approval task decodes to the workflow, the version and the gate that it was made of,
-- for every workflow id, with an `@` in it as well, when the version has no `@`.
pub decode-workflow_version_approval_subject :
    (workflow_id workflow_version : Text) (gate : GateName)
    → has b'@' workflow_version ≡ false
    → decode_workflow_version_approval_subject
        (workflow_version_approval_subject workflow_id workflow_version gate).run_id
        (some (workflow_version_approval_subject workflow_id workflow_version gate).step_id)
      ≡ some
          (record { workflow_id = workflow_id; workflow_version = workflow_version; gate = gate })
unfolding decode_workflow_version_approval_subject workflow_version_approval_subject
decode-workflow_version_approval_subject workflow_id workflow_version gate h =
    ap
      (with_gate (
        decode_gate_from_step_id
          (some (subject_step_prefix ++ (gate_text gate ++ subject_step_suffix)))))
      (split_last-append b'@' workflow_id workflow_version h)
    ∙ ap
        (λ g.
          some
            (record { workflow_id = workflow_id; workflow_version = workflow_version; gate = g }))
        (decode_gate_lem workflow_id workflow_version gate)

starts_with-drop : (s p : Text) → starts_with s p ≡ true → s ≡ p ++ drop (length p) s
starts_with-drop s [] h = refl
starts_with-drop [] (d ∷ p) h = absurd (false≢true h)
starts_with-drop (c ∷ s) (d ∷ p) h =
    let same : c ≡ d = ground arith in
    let rest = starts_with-drop s p (ground arith) in ap (λ x. x ∷ s) same ∙ ap (λ x. d ∷ x) rest

split_last-none : (c : ℕ) (s : Text) → split_last c s ≡ none → has c s ≡ false
split_last-none c [] h = refl
split_last-none c (d ∷ s) h = elim (Option-cases (split_last c s)) [
  | inr ((a, b), e) ↦ absurd (none-ne-some (sym (rw (e, split_last) at h)))
  | inl e ↦ elim (Bool-cases (d == c)) [
    | inl f ↦ absurd (none-ne-some (sym (rw (e, f, split_last) at h)))
    | inr f ↦
        let rest = split_last-none c s e in
        let other : (c == d) ≡ false = ground arith in rw other rest
  ]
]

split_last_sound :
    (c : ℕ) (s a b : Text) → split_last c s ≡ some (a, b) → (s ≡ a ++ c ∷ b) × (has c b ≡ false)
split_last_sound c [] a b h = absurd (none-ne-some h)
split_last_sound c (d ∷ s) a b h = elim (Option-cases (split_last c s)) [
  | inr ((x, y), e) ↦
      let (same, free) = split_last_sound c s x y e in
      let found : ◌≡◌ {A = Option (Text × Text)} (some (d ∷ x, y)) (some (a, b)) =
        rw (e, split_last) at h in
      let pair = some_inj found in
      let tail : y ≡ b = ap (λ p. p.1) pair in
      (ap (λ z. d ∷ z) same ∙ ap (λ p. p.0 ++ c ∷ p.1) pair, ap (has c) (sym tail) ∙ free)
  | inl e ↦ elim (Bool-cases (d == c)) [
    | inr f ↦ absurd (none-ne-some (rw (e, f, split_last) at h))
    | inl f ↦
        let found : ◌≡◌ {A = Option (Text × Text)} (some ([], s)) (some (a, b)) =
          rw (e, f, split_last) at h in
        let pair = some_inj found in
        let same : d ≡ c = ground arith in
        let tail : s ≡ b = ap (λ p. p.1) pair in
        (
          ap (λ x. x ∷ s) same ∙ ap (λ p. p.0 ++ c ∷ p.1) pair,
          ap (has c) (sym tail) ∙ split_last-none c s e,
        )
  ]
]

-- A run id that decodes is that of the subject of what it decodes to, whatever the step id is; the
-- version has no `@`.
pub decode_workflow_version_approval_subject-eq-some :
    (run_id : Text) (step_id : Option Text) (d : Decoded)
    → decode_workflow_version_approval_subject run_id step_id ≡ some d
    → ((workflow_version_approval_subject d.workflow_id d.workflow_version d.gate).run_id ≡ run_id)
      × (has b'@' d.workflow_version ≡ false)
unfolding decode_workflow_version_approval_subject workflow_version_approval_subject
decode_workflow_version_approval_subject-eq-some run_id step_id d h =
    elim (Bool-cases (starts_with run_id subject_prefix)) [
      | inr e ↦ absurd (none-ne-some (rw (e, decode_workflow_version_approval_subject) at h))
      | inl e ↦ elim (Option-cases (split_last b'@' (drop (length subject_prefix) run_id))) [
        | inl f ↦ absurd (none-ne-some (rw (e, f, decode_workflow_version_approval_subject) at h))
        | inr ((a, b), f) ↦
            let same = some_inj (rw (e, f, decode_workflow_version_approval_subject) at h) in
            let (parts, free) = split_last_sound b'@' (drop (length subject_prefix) run_id) a b f in
            (
              ap (λ x. subject_prefix ++ (x.workflow_id ++ b'@' ∷ x.workflow_version)) (sym same)
                  ∙ ap (λ r. subject_prefix ++ r) (sym parts)
                  ∙ sym (starts_with-drop run_id subject_prefix e),
              ap (λ x. has b'@' x.workflow_version) (sym same) ∙ free,
            )
      ]
    ]
