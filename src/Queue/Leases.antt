-- ===== src/Queue/Leases.antt =====
-- A claim is exclusive until its lease ends, however the other calls of the queue are interleaved.
use aart.Base.{
  ℕ, ◌<◌, ◌≡◌, refl, ap, sym, subst, ◌∙◌, ◌≢◌, ◌⊎◌, inl, inr, ◌==◌, ==_self, true, false,
  Bool-cases, none, some, Option-cases, arith, ok, ok_inj, err-ne-ok, >>=-eq-ok, change, map_option,
  lookup-change_same, lookup-change_other, lookup-discard_other, lookup-append_some,
}
use aart.Queue.{
  JobQueueEntry, Queue, id_of, get, require, prioritize, enqueue, is_claimable, claim_row,
  set_claim, renew_row, renew_lease, release_row, release, count_row, increment_reclaim_count,
  remove, confirmed,
}

-- The row of a run is claimed by a worker up to a time.
pub record Holds (run_id worker_id lease : ℕ) (queue : Queue) : Type 0 where
  pub entry : JobQueueEntry
  pub found : get run_id queue ≡ some entry
  pub owner : entry.claimed_by ≡ some worker_id
  pub until : entry.lease_expires_at ≡ some lease

-- A call of the queue that is not the owner's own: any call on another run, and of those on the run
-- itself any but a release, a removal and a renewal, while the lease has not ended.
pub data Other (run_id lease : ℕ) : Queue → Queue → Type 0 where
  enqueues : (r p : ℕ) (q : Queue) → Other run_id lease q (enqueue r p q)
  claims :
      (r w l now : ℕ) (q q' : Queue)
      → now < lease
      → set_claim r w l now q ≡ ok q'
      → Other run_id lease q q'
  counts :
      (r n : ℕ) (q q' : Queue) → increment_reclaim_count r q ≡ ok (n, q') → Other run_id lease q q'
  renews :
      (r l : ℕ) (q q' : Queue) → run_id ≢ r → renew_lease r l q ≡ ok q' → Other run_id lease q q'
  releases : (r : ℕ) (q : Queue) → run_id ≢ r → Other run_id lease q (release r q)
  removes : (r : ℕ) (q : Queue) → run_id ≢ r → Other run_id lease q (remove r q)

-- Any number of such calls.
pub data Others (run_id lease : ℕ) : Queue → Queue → Type 0 where
  done : (q : Queue) → Others run_id lease q q
  next :
      (q q' q'' : Queue)
      → Other run_id lease q q'
      → Others run_id lease q' q''
      → Others run_id lease q q''

same_or_not : (a b : ℕ) → (a ≡ b) ⊎ (a ≢ b)
same_or_not a b = elim (Bool-cases (a == b)) [
  | inl e ↦ inl (ground arith)
  | inr e ↦ inr (λ h. ground arith)
]

-- A successful call of `require` gives the row.
pub get-require : (r : ℕ) (q : Queue) (e : JobQueueEntry) → require r q ≡ ok e → get r q ≡ some e
get-require r q e h = elim (Option-cases (get r q)) [
  | inl f ↦ absurd (err-ne-ok (rw (f, require) at h))
  | inr (d, f) ↦ f ∙ ap some (ok_inj (rw (f, require) at h))
]

pub set_claim-eq :
    (r w l now : ℕ) (q q' : Queue)
    → set_claim r w l now q ≡ ok q'
    → change id_of r (claim_row w l now) q ≡ q'
unfolding set_claim
set_claim-eq r w l now q q' h = let (e, f, g) = >>=-eq-ok (require r q) _ h in ok_inj g

renew_lease-eq :
    (r l : ℕ) (q q' : Queue) → renew_lease r l q ≡ ok q' → change id_of r (renew_row l) q ≡ q'
unfolding renew_lease
renew_lease-eq r l q q' h = let (e, f, g) = >>=-eq-ok (require r q) _ h in ok_inj g

increment-eq :
    (r n : ℕ) (q q' : Queue)
    → increment_reclaim_count r q ≡ ok (n, q')
    → change id_of r (count_row n) q ≡ q'
unfolding increment_reclaim_count
increment-eq r n q q' h =
    let (e, f, g) = >>=-eq-ok (require r q) _ h in
    let both = ok_inj g in
    sym (ap (λ m. change id_of r (count_row m) q) (ap (λ p. p.0) both)) ∙ ap (λ p. p.1) both

pub claim_row-id : (w l now : ℕ) (e : JobQueueEntry) → id_of (claim_row w l now e) ≡ id_of e
claim_row-id w l now e = elim (Bool-cases (is_claimable now e)) [
  | inl h ↦ rw h refl
  | inr h ↦ rw h refl
]

-- Before its end, a lease keeps its row from being claimed.
claim_row-held :
    (worker_id lease w l now : ℕ) (e : JobQueueEntry)
    → now < lease
    → e.claimed_by ≡ some worker_id
    → e.lease_expires_at ≡ some lease
    → claim_row w l now e ≡ e
claim_row-held worker_id lease w l now e early owner until =
    let closed : is_claimable now e ≡ false = rw (owner, until) (ground arith) in rw closed refl

module _ {run_id worker_id lease : ℕ} where
  -- A change of one row keeps the claim, if it keeps the claim of the row itself.
  Holds-change :
      (r : ℕ) (f : JobQueueEntry → JobQueueEntry)
      (kept : (e : JobQueueEntry) → id_of (f e) ≡ id_of e) (q : Queue)
      (h : Holds run_id worker_id lease q)
      → (run_id ≡ r
          → ((f h.entry).claimed_by ≡ some worker_id) × ((f h.entry).lease_expires_at ≡ some lease))
      → Holds run_id worker_id lease (change id_of r f q)
  Holds-change r f kept q h g = elim (same_or_not run_id r) [
    | inl e ↦ record {
      entry = f h.entry;
      found =
          subst (λ k. get run_id (change id_of k f q) ≡ some (f h.entry)) e
            (lookup-change_same id_of f kept run_id q ∙ ap (map_option f) h.found);
      owner = (g e).0;
      until = (g e).1;
    }
    | inr n ↦ record {
      entry = h.entry;
      found = lookup-change_other id_of f kept r run_id q n ∙ h.found;
      owner = h.owner;
      until = h.until;
    }
  ]

  Holds-enqueue :
      (r p : ℕ) (q : Queue)
      → Holds run_id worker_id lease q
      → Holds run_id worker_id lease (enqueue r p q)
  unfolding enqueue
  Holds-enqueue r p q h = elim (Option-cases (get r q)) [
    | inl f ↦
        rw (f, enqueue)
          record {
            entry = h.entry;
            found = lookup-append_some id_of run_id q _ h.entry h.found;
            owner = h.owner;
            until = h.until;
          }
    | inr (e, f) ↦
        rw (f, enqueue) (Holds-change r (prioritize p) (λ d. refl) q h (λ same. (h.owner, h.until)))
  ]

  Holds-release :
      (r : ℕ) (q : Queue)
      → run_id ≢ r
      → Holds run_id worker_id lease q
      → Holds run_id worker_id lease (release r q)
  unfolding release
  Holds-release r q other h = Holds-change r release_row (λ d. refl) q h (λ e. absurd (other e))

  Holds-remove :
      (r : ℕ) (q : Queue)
      → run_id ≢ r
      → Holds run_id worker_id lease q
      → Holds run_id worker_id lease (remove r q)
  unfolding remove
  Holds-remove r q other h = record {
    entry = h.entry;
    found = lookup-discard_other id_of run_id r q other ∙ h.found;
    owner = h.owner;
    until = h.until;
  }

  Holds-Other :
      {q q' : Queue}
      → Other run_id lease q q'
      → Holds run_id worker_id lease q
      → Holds run_id worker_id lease q'
  Holds-Other (enqueues r p q) h = Holds-enqueue r p q h
  Holds-Other (claims r w l now q q' early c) h =
      let same = claim_row-held worker_id lease w l now h.entry early h.owner h.until in
      subst (λ t. Holds run_id worker_id lease t) (set_claim-eq r w l now q q' c)
        (Holds-change r (claim_row w l now) (claim_row-id w l now) q h (λ e.
          (ap (λ d. d.claimed_by) same ∙ h.owner, ap (λ d. d.lease_expires_at) same ∙ h.until)))
  Holds-Other (counts r n q q' c) h =
      subst (λ t. Holds run_id worker_id lease t) (increment-eq r n q q' c)
        (Holds-change r (count_row n) (λ d. refl) q h (λ e. (h.owner, h.until)))
  Holds-Other (renews r l q q' other c) h =
      subst (λ t. Holds run_id worker_id lease t) (renew_lease-eq r l q q' c)
        (Holds-change r (renew_row l) (λ d. refl) q h (λ e. absurd (other e)))
  Holds-Other (releases r q other) h = Holds-release r q other h
  Holds-Other (removes r q other) h = Holds-remove r q other h

  Holds-Others :
      {q q' : Queue}
      → Others run_id lease q q'
      → Holds run_id worker_id lease q
      → Holds run_id worker_id lease q'
  Holds-Others (done q) h = h
  Holds-Others (next q q' q'' o os) h = Holds-Others os (Holds-Other o h)

claimed-Holds :
    (r w l now : ℕ) (q q' : Queue) (e : JobQueueEntry)
    → get r q ≡ some e
    → is_claimable now e ≡ true
    → set_claim r w l now q ≡ ok q'
    → Holds r w l q'
claimed-Holds r w l now q q' e f open_row c =
    subst (λ t. Holds r w l t) (set_claim-eq r w l now q q' c)
      record {
        entry = claim_row w l now e;
        found =
            lookup-change_same id_of (claim_row w l now) (claim_row-id w l now) r q
            ∙ ap (map_option (claim_row w l now)) f;
        owner = rw open_row refl;
        until = rw open_row refl;
      }

confirmed-Holds : {r w l : ℕ} {q : Queue} (v : ℕ) → Holds r w l q → confirmed v (get r q) ≡ (w == v)
confirmed-Holds v h =
    ap (confirmed v) h.found ∙ ap (λ c. elim c [ none ↦ false | some w ↦ w == v ]) h.owner

-- A worker that takes a claimable row keeps it until its lease ends: whatever calls of others come
-- between, a second worker that then tries to claim the run does not find itself its owner when it
-- reads the row back. The calls between are any on other runs, and on the run itself any but a
-- release, a removal and a renewal; all of them, and the second claim, come before the end of the
-- lease.
pub set_claim-exclusive :
    (run_id worker other lease lease' now later : ℕ) (q q₁ q₂ q₃ : Queue) (e : JobQueueEntry)
    → get run_id q ≡ some e
    → is_claimable now e ≡ true
    → set_claim run_id worker lease now q ≡ ok q₁
    → Others run_id lease q₁ q₂
    → later < lease
    → set_claim run_id other lease' later q₂ ≡ ok q₃
    → other ≢ worker
    → (confirmed worker (get run_id q₃) ≡ true) × (confirmed other (get run_id q₃) ≡ false)
set_claim-exclusive run_id worker other lease lease' now later q q₁ q₂ q₃ e f open_row c os early d
      n =
    let first = claimed-Holds run_id worker lease now q q₁ e f open_row c in
    let last =
      Holds-Other (claims run_id other lease' later q₂ q₃ early d) (Holds-Others os first) in
    (confirmed-Holds worker last ∙ ==_self worker, confirmed-Holds other last ∙ ground arith)
