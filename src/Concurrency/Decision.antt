-- ===== src/Concurrency/Decision.antt =====
-- When a new run is let in.
use aart.Base.{
  ◌≡◌, refl, ap, sym, subst, ◌∙◌, ◌≢◌, ◌↔◌, inl, inr, Bool, true, false, ◌&&◌, Bool-cases,
  false≢true, if◌then◌else◌, Option, none, some, some_inj, none-ne-some, Option-cases, List, [],
  ◌∷◌, arith, Member, Text, text_eq, text_eq_sound, text_eq_self, filter, find, find-Member,
  Member-find,
}
use aart.Concurrency.{
  ConcurrencyPolicy, allow_policy, queue_policy, cancel_existing_policy, reject_new_policy,
  IntakeRun, allow, reject, is_non_terminal, apply_policy, same_key, persisted_concurrency_key,
  concurrency_keys_equal, decide, decide_concurrency,
}

module _ {A : Type 0} (p : A → Bool) where
  filter-Member : (xs : List A) (a : A) → Member a (filter p xs) → Member a xs × (p a ≡ true)
  filter-Member [] a m = absurd m
  filter-Member (x ∷ xs) a m = elim (Bool-cases (p x)) [
    | inl e ↦ elim (subst (λ b. Member a (if b then x ∷ filter p xs else filter p xs)) e m) [
      | inl same ↦ (inl same, ap p same ∙ e)
      | inr k ↦ let (n, t) = filter-Member xs a k in (inr n, t)
    ]
    | inr e ↦
        let (n, t) =
          filter-Member xs a
            (subst (λ b. Member a (if b then x ∷ filter p xs else filter p xs)) e m) in
        (inr n, t)
  ]

  Member-filter : (xs : List A) (a : A) → Member a xs → p a ≡ true → Member a (filter p xs)
  Member-filter [] a m t = absurd m
  Member-filter (x ∷ xs) a (inl same) t = rw (sym (ap p same) ∙ t) (inl same)
  Member-filter (x ∷ xs) a (inr m) t = elim (Bool-cases (p x)) [
    | inl e ↦ rw e (inr (Member-filter xs a m t))
    | inr e ↦ rw e (Member-filter xs a m t)
  ]

same_key_sound : (o : Option Text) (t : Text) → same_key o (some t) ≡ true → o ≡ some t
same_key_sound none t h = absurd (false≢true h)
same_key_sound (some s) t h = ap some (text_eq_sound s t h)

and_split : (a b : Bool) → (a && b) ≡ true → (a ≡ true) × (b ≡ true)
and_split a b h = ground arith

module _ (fingerprint : Text → Text) where
  -- A run that stands in the way: of the same workflow, not finished, and with the same key, whether
  -- its record holds the key itself or the fingerprint.
  pub record Blocks (workflow_id raw_key : Text) (runs : List IntakeRun) (r : IntakeRun)
      : Type 0 where
    pub listed : Member r runs
    pub of_workflow : r.workflow_id ≡ workflow_id
    pub unfinished : is_non_terminal r.status ≡ true
    pub keyed : persisted_concurrency_key fingerprint r ≡ some (fingerprint raw_key)

allow≢reject : allow ≢ reject
allow≢reject h = cc

policy_of :
    (policy : ConcurrencyPolicy) (r : IntakeRun)
    → apply_policy policy r ≡ reject
    → policy ≡ reject_new_policy
policy_of allow_policy r h = absurd (allow≢reject h)
policy_of queue_policy r h = cc
policy_of cancel_existing_policy r h = cc
policy_of reject_new_policy r h = refl

-- A new run is rejected exactly if the workflow's policy is to reject and some run stands in its way: a
-- run of the same workflow that is not finished, with the same key, held as it is or as a fingerprint.
pub decide_concurrency-reject_iff :
    (fingerprint : Text → Text) (runs : List IntakeRun) (workflow_id : Text)
    (policy : Option ConcurrencyPolicy) (raw_key : Text)
    → (decide_concurrency fingerprint runs workflow_id policy (some raw_key) ≡ reject) ↔ (
        (policy ≡ some reject_new_policy)
        × (r : IntakeRun) × Blocks fingerprint workflow_id raw_key runs r)
unfolding decide_concurrency
decide_concurrency-reject_iff fingerprint runs workflow_id none raw_key =
    (λ h. absurd (allow≢reject h), λ (e, r, b). absurd (none-ne-some e))
decide_concurrency-reject_iff fingerprint runs workflow_id (some policy) raw_key =
    (there policy, λ (e, r, b). back policy e r b)
  where
    test : IntakeRun → Bool
    test r = is_non_terminal r.status && concurrency_keys_equal fingerprint r (some raw_key) false

    listed : List IntakeRun
    listed = filter (λ r. text_eq r.workflow_id workflow_id) runs

    blocks :
        (r : IntakeRun) → find test listed ≡ some r → Blocks fingerprint workflow_id raw_key runs r
    blocks r f =
        let (m, t) = find-Member test listed r f in
        let (n, w) = filter-Member (λ d. text_eq d.workflow_id workflow_id) runs r m in
        let (u, k) = and_split (is_non_terminal r.status) _ t in
        record {
          listed = n;
          of_workflow = text_eq_sound r.workflow_id workflow_id w;
          unfinished = u;
          keyed = same_key_sound _ _ k;
        }

    there :
        (policy : ConcurrencyPolicy)
        → decide fingerprint policy (find test listed) ≡ reject
        → (some policy ≡ some reject_new_policy)
          × (r : IntakeRun) × Blocks fingerprint workflow_id raw_key runs r
    there policy h = elim (Option-cases (find test listed)) [
      | inl f ↦ absurd (allow≢reject (sym (ap (decide fingerprint policy) f) ∙ h))
      | inr (r, f) ↦
          (ap some (policy_of policy r (sym (ap (decide fingerprint policy) f) ∙ h)), r, blocks r f)
    ]

    back :
        (policy : ConcurrencyPolicy)
        → some policy ≡ some reject_new_policy
        → (r : IntakeRun) → Blocks fingerprint workflow_id raw_key runs r
        → decide fingerprint policy (find test listed) ≡ reject
    back policy e r b =
        let key = some (fingerprint raw_key) in
        let passes : test r ≡ true =
          ap (λ k. is_non_terminal r.status && same_key k key) b.keyed
          ∙ ap (λ u. u && text_eq (fingerprint raw_key) (fingerprint raw_key)) b.unfinished
          ∙ text_eq_self (fingerprint raw_key) in
        let same : text_eq r.workflow_id workflow_id ≡ true =
          ap (λ w. text_eq w workflow_id) b.of_workflow ∙ text_eq_self workflow_id in
        let (d, f) =
          Member-find test listed r
            (Member-filter (λ d. text_eq d.workflow_id workflow_id) runs r b.listed same) passes in
        ap (decide fingerprint policy) f ∙ ap (λ q. apply_policy q d) (some_inj e)
