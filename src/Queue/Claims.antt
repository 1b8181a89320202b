-- ===== src/Queue/Claims.antt =====
-- What a worker claims, when no other call comes between its own.
use aart.Base.{
  ℕ, ◌+◌, ◌≤◌, ◌≡◌, refl, ap, sym, subst, ◌∙◌, ◌⊎◌, inl, inr, ==_self, Bool, true, Bool-cases,
  Option, none, some, some_inj, none-ne-some, List, [], ◌∷◌, arith, All, ok, lookup, change,
  map_option, keep_if, IsKeyed, lookup-change_same,
}
use aart.Queue.{
  JobQueueEntry, Queue, id_of, get, require, is_claimable, goes_before, list_claimable, claim_row,
  set_claim, confirmed, claim_first, try_claim_next_run,
}
use aart.Queue.Leases.{claim_row-id}
use aart.Queue.Listing.{
  lookup-list_claimable, list_claimable-IsOrdered, IsOrdered, All-list_claimable,
}

-- A lease that has ended has ended later, too.
is_claimable-later :
    (now wall : ℕ) (e : JobQueueEntry)
    → now ≤ wall
    → is_claimable now e ≡ true
    → is_claimable wall e ≡ true
is_claimable-later now wall e l h = ground arith

keep_if-some :
    (p : JobQueueEntry → Bool) (o : Option JobQueueEntry) (e : JobQueueEntry)
    → keep_if p o ≡ some e
    → (o ≡ some e) × (p e ≡ true)
keep_if-some p none e h = absurd (ground arith)
keep_if-some p (some d) e h = elim (Bool-cases (p d)) [
  | inl t ↦ let same : d ≡ e = some_inj (rw t at h) in (ap some same, ap p (sym same) ∙ t)
  | inr f ↦ absurd (none-ne-some (rw f at h))
]

-- The first claim of a claimable row is confirmed.
claim_first-head :
    (worker lease wall : ℕ) (e : JobQueueEntry) (es : List JobQueueEntry) (q : Queue)
    → get e.run_id q ≡ some e
    → is_claimable wall e ≡ true
    → claim_first worker lease wall (e ∷ es) q
      ≡ ok (
        change id_of e.run_id (claim_row worker lease wall) q,
        some (claim_row worker lease wall e),
      )
unfolding claim_first set_claim
claim_first-head worker lease wall e es q f h =
    let found : get e.run_id (change id_of e.run_id (claim_row worker lease wall) q)
        ≡ some (claim_row worker lease wall e) =
      lookup-change_same id_of (claim_row worker lease wall) (claim_row-id worker lease wall)
        e.run_id q
      ∙ ap (map_option (claim_row worker lease wall)) f in
    let mine : confirmed worker (some (claim_row worker lease wall e)) ≡ true =
      rw h (==_self worker) in
    rw (f, require) (rw (found, mine) refl)

-- A worker claims the claimable row that goes before all others, the one of the highest priority and
-- of those the least run id, and its claim is confirmed; with no claimable row the queue is left as
-- it is, and nothing is claimed. No two rows have the same run, the store's own clock is not behind the one of the worker, and no
-- other call comes between.
pub try_claim_next_run-first :
    (worker now lease_duration_ms wall : ℕ) (q : Queue)
    → IsKeyed id_of q
    → now ≤ wall
    → ((try_claim_next_run worker now lease_duration_ms wall q ≡ ok (q, none))
        × All (λ d. is_claimable now d ≡ true → ⊥) q)
      ⊎ ((e : JobQueueEntry) × ((get e.run_id q ≡ some e) × (is_claimable now e ≡ true))
          × All (λ d. is_claimable now d ≡ true → (d ≡ e) ⊎ (goes_before e d ≡ true)) q
          × (try_claim_next_run worker now lease_duration_ms wall q
              ≡ ok (
                change id_of e.run_id (claim_row worker (now + lease_duration_ms) wall) q,
                some (claim_row worker (now + lease_duration_ms) wall e),
              )))
unfolding try_claim_next_run claim_first
try_claim_next_run-first worker now duration wall q u l = go (list_claimable now q) refl
  where
    lease : ℕ
    lease = now + duration

    go :
        (es : Queue)
        → list_claimable now q ≡ es
        → ((claim_first worker lease wall (list_claimable now q) q ≡ ok (q, none))
            × All (λ d. is_claimable now d ≡ true → ⊥) q)
          ⊎ ((e : JobQueueEntry) × ((get e.run_id q ≡ some e) × (is_claimable now e ≡ true))
              × All (λ d. is_claimable now d ≡ true → (d ≡ e) ⊎ (goes_before e d ≡ true)) q
              × (claim_first worker lease wall (list_claimable now q) q
                  ≡ ok (
                    change id_of e.run_id (claim_row worker lease wall) q,
                    some (claim_row worker lease wall e),
                  )))
    go [] same = inl (
      ap (λ t. claim_first worker lease wall t q) same,
      All-list_claimable (λ d. ⊥) now q (subst (All (λ d. ⊥)) (sym same) tt),
    )
    go (e ∷ es) same =
        let listed : lookup id_of e.run_id (list_claimable now q) ≡ some e =
          ap (lookup id_of e.run_id) same ∙ rw (==_self e.run_id) refl in
        let (found, free) =
          keep_if-some (is_claimable now) (get e.run_id q) e
            (sym (lookup-list_claimable now e.run_id q u) ∙ listed) in
        let ordered : IsOrdered (e ∷ es) = subst IsOrdered same (list_claimable-IsOrdered now q) in
        inr (
          e,
          (found, free),
          All-list_claimable _ now q (
              subst (All (λ d. (d ≡ e) ⊎ (goes_before e d ≡ true))) (sym same)
                (inl refl, behind e es ordered.0)),
          ap (λ t. claim_first worker lease wall t q) same
              ∙ claim_first-head worker lease wall e es q found
                  (is_claimable-later now wall e l free),
        )
      where
        behind :
            (e : JobQueueEntry) (es : Queue)
            → All (λ d. goes_before e d ≡ true) es
            → All (λ d. (d ≡ e) ⊎ (goes_before e d ≡ true)) es
        behind e [] h = tt
        behind e (d ∷ es) (b, h) = (inr b, behind e es h)
