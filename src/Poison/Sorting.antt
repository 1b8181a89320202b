-- ===== src/Poison/Sorting.antt =====
-- What `Array.prototype.sort` promises, and the runs of a correlation key by themselves.
use aart.Base.{
  ◌<◌, ◌≡◌, refl, ◌∙◌, ap, inl, inr, Bool, false, ◌&&◌, Bool-cases, Option-cases, none, some, List,
  [], ◌∷◌, ◌++◌, arith, All, Text, text_eq, text_eq_sound, length, filter, any, ltb, ◌==◌, ==_self,
}
use aart.Poison.{Trigger, RunRecord, correlation_key_for, key_of, runs_for_key}

abbrev pub Sort : Type 0
Sort = (RunRecord → RunRecord → Bool) → List RunRecord → List RunRecord

-- No two of the runs start at the same time.
abbrev pub Untied : List RunRecord → Type 0
Untied [] = Unit
Untied (r ∷ runs) = All (λ q. (r.started_at == q.started_at) ≡ false) runs × Untied runs

-- Each run starts later than those behind it.
abbrev pub Descending : List RunRecord → Type 0
Descending [] = Unit
Descending (r ∷ runs) = All (λ q. q.started_at < r.started_at) runs × Descending runs

-- A sort changes the order alone, and puts behind what its test says goes behind. Of runs that start at
-- one time the test says nothing consistent, and then nothing is promised of the order.
pub record IsSort (sort : Sort) : Type 0 where
  pub counts :
      (after : RunRecord → RunRecord → Bool) (p : RunRecord → Bool) (runs : List RunRecord)
      → length (filter p (sort after runs)) ≡ length (filter p runs)
  pub ordered :
      (after : RunRecord → RunRecord → Bool) (runs : List RunRecord)
      → ((a b : RunRecord) → after a b ≡ ltb a.started_at b.started_at)
      → Untied runs
      → Descending (sort after runs)

-- The correlation id or, where there is none, the id of one trigger is that of the other.
abbrev pub is_same_subject : Trigger → Trigger → Bool
is_same_subject t u = elim t.correlation_id [
  | none ↦ elim u.correlation_id [ none ↦ text_eq t.id u.id | some d ↦ text_eq t.id d ]
  | some c ↦ elim u.correlation_id [ none ↦ text_eq c u.id | some d ↦ text_eq c d ]
]

-- The runs of a workflow with the subject of a trigger.
abbrev pub is_counted : Text → Trigger → RunRecord → Bool
is_counted workflow_id trigger r =
    text_eq r.workflow_id workflow_id && is_same_subject r.trigger trigger

text_eq-append : (s t u : Text) → text_eq (s ++ t) (s ++ u) ≡ text_eq t u
text_eq-append [] t u = refl
text_eq-append (c ∷ s) t u = rw (==_self c) (text_eq-append s t u)

same_key :
    (workflow_id : Text) (t u : Trigger)
    → text_eq (correlation_key_for workflow_id t) (correlation_key_for workflow_id u)
      ≡ is_same_subject t u
unfolding correlation_key_for
same_key workflow_id t u = text_eq-append workflow_id _ _ ∙ (elim (Option-cases t.correlation_id) [
  | inl e ↦ elim (Option-cases u.correlation_id) [
    | inl f ↦ rw (e, f) refl
    | inr (d, f) ↦ rw (e, f) refl
  ]
  | inr (c, e) ↦ elim (Option-cases u.correlation_id) [
    | inl f ↦ rw (e, f) refl
    | inr (d, f) ↦ rw (e, f) refl
  ]
])

pub filter-filter :
    {A : Type 0} (p q : A → Bool) (xs : List A)
    → filter p (filter q xs) ≡ filter (λ x. q x && p x) xs
filter-filter p q [] = refl
filter-filter p q (x ∷ xs) = elim (Bool-cases (q x)) [
  | inr e ↦ rw e (filter-filter p q xs)
  | inl e ↦ elim (Bool-cases (p x)) [
    | inl f ↦ rw (e, f) (ap (λ ys. x ∷ ys) (filter-filter p q xs))
    | inr f ↦ rw (e, f) (filter-filter p q xs)
  ]
]

pub filter-ext :
    {A : Type 0} (p q : A → Bool) (xs : List A) → ((x : A) → p x ≡ q x) → filter p xs ≡ filter q xs
filter-ext p q [] h = refl
filter-ext p q (x ∷ xs) h = rw (h x, filter-ext p q xs h) refl

pub any-counts : {A : Type 0} (p : A → Bool) (xs : List A) → any p xs ≡ ltb 0 (length (filter p xs))
any-counts p [] = refl
any-counts p (x ∷ xs) = elim (Bool-cases (p x)) [
  | inl e ↦ rw e (ground arith)
  | inr e ↦ rw e (any-counts p xs)
]

-- The runs that the program finds for a key.
pub runs_for_key-filter :
    (workflow_id : Text) (trigger : Trigger) (runs : List RunRecord)
    → runs_for_key workflow_id trigger runs ≡ filter (is_counted workflow_id trigger) runs
runs_for_key-filter workflow_id trigger runs =
    filter-filter _ _ runs ∙ filter-ext _ (is_counted workflow_id trigger) runs each
  where
    each :
        (r : RunRecord)
        → (text_eq r.workflow_id workflow_id
            && text_eq (key_of r) (correlation_key_for workflow_id trigger))
          ≡ is_counted workflow_id trigger r
    each r = elim (Bool-cases (text_eq r.workflow_id workflow_id)) [
      | inr e ↦ rw e refl
      | inl e ↦
          let same : r.workflow_id ≡ workflow_id = text_eq_sound r.workflow_id workflow_id e in
          rw e (
            ap
              (λ w.
                text_eq (correlation_key_for w r.trigger) (correlation_key_for workflow_id trigger))
              same
            ∙ same_key workflow_id r.trigger trigger)
    ]
