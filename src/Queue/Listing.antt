-- ===== src/Queue/Listing.antt =====
-- What `listClaimable` lists, and in which order.
use aart.Base.{
  ℕ, ◌≡◌, refl, ap, ◌∙◌, ◌==◌, Bool, true, false, Bool-cases, if◌then◌else◌, none, some, [], ◌∷◌,
  arith, inl, inr, filter, All, lookup, IsKeyed, keep_if, lookup-filter, filter-IsKeyed,
}
use aart.Queue.{
  JobQueueEntry, Queue, id_of, get, is_claimable, goes_before, insert_ordered, order,
  list_claimable,
}

goes_before_trans :
    (c d e : JobQueueEntry)
    → goes_before c d ≡ true
    → goes_before d e ≡ true
    → goes_before c e ≡ true
goes_before_trans c d e h k = ground arith

goes_before_total : (d e : JobQueueEntry) → goes_before d e ≡ false → goes_before e d ≡ true
goes_before_total d e h = ground arith

-- Every row goes before those behind it.
abbrev pub IsOrdered : Queue → Type 0
IsOrdered [] = Unit
IsOrdered (e ∷ es) = All (λ d. goes_before e d ≡ true) es × IsOrdered es

module _ (P : JobQueueEntry → Type 0) where
  insert_ordered-All :
      (d : JobQueueEntry) (es : Queue) → P d → All P es → All P (insert_ordered d es)
  insert_ordered-All d [] p h = (p, tt)
  insert_ordered-All d (e ∷ es) p (q, h) = elim (Bool-cases (goes_before d e)) [
    | inl b ↦ rw b (p, (q, h))
    | inr b ↦ rw b (q, insert_ordered-All d es p h)
  ]

  All-insert_ordered :
      (d : JobQueueEntry) (es : Queue) → All P (insert_ordered d es) → P d × All P es
  All-insert_ordered d [] h = h
  All-insert_ordered d (e ∷ es) h = elim (Bool-cases (goes_before d e)) [
    | inl b ↦ (rw b at h)
    | inr b ↦
        let (q, k) : P e × All P (insert_ordered d es) = (rw b at h) in
        let (p, rest) = All-insert_ordered d es k in (p, (q, rest))
  ]

  All-order : (es : Queue) → All P (order es) → All P es
  All-order [] h = tt
  All-order (e ∷ es) h = let (p, k) = All-insert_ordered e (order es) h in (p, All-order es k)

  All-filter :
      (p : JobQueueEntry → Bool) (es : Queue) → All P (filter p es) → All (λ e. p e ≡ true → P e) es
  All-filter p [] h = tt
  All-filter p (e ∷ es) h = elim (Bool-cases (p e)) [
    | inl b ↦ let (q, k) : P e × All P (filter p es) = (rw b at h) in (λ t. q, All-filter p es k)
    | inr b ↦ (λ t. absurd (ground arith), All-filter p es (rw b at h))
  ]

weaken :
    (P Q : JobQueueEntry → Type 0)
    → ((e : JobQueueEntry) → P e → Q e)
    → (es : Queue) → All P es
    → All Q es
weaken P Q f [] h = tt
weaken P Q f (e ∷ es) (p, h) = (f e p, weaken P Q f es h)

insert_ordered-IsOrdered :
    (d : JobQueueEntry) (es : Queue) → IsOrdered es → IsOrdered (insert_ordered d es)
insert_ordered-IsOrdered d [] h = (tt, tt)
insert_ordered-IsOrdered d (e ∷ es) (first, h) = elim (Bool-cases (goes_before d e)) [
  | inl b ↦ rw b ((b, weaken _ _ (λ c k. goes_before_trans d e c b k) es first), (first, h))
  | inr b ↦ rw b (
    insert_ordered-All (λ c. goes_before e c ≡ true) d es (goes_before_total d e b) first,
    insert_ordered-IsOrdered d es h,
  )
]

order-IsOrdered : (es : Queue) → IsOrdered (order es)
order-IsOrdered [] = tt
order-IsOrdered (e ∷ es) = insert_ordered-IsOrdered e (order es) (order-IsOrdered es)

lookup-insert_ordered :
    (k : ℕ) (d : JobQueueEntry) (es : Queue)
    → lookup id_of (id_of d) es ≡ none
    → lookup id_of k (insert_ordered d es) ≡ lookup id_of k (d ∷ es)
lookup-insert_ordered k d [] h = refl
lookup-insert_ordered k d (e ∷ es) h = elim (Bool-cases (goes_before d e)) [
  | inl b ↦ rw b refl
  | inr b ↦ elim (Bool-cases (id_of e == id_of d)) [
    | inl same ↦ absurd (ground arith)
    | inr other ↦
        let rest = lookup-insert_ordered k d es (rw other at h) in
        elim (Bool-cases (id_of e == k)) [
          | inl at_e ↦ let not_d : (id_of d == k) ≡ false = ground arith in rw (b, at_e, not_d) refl
          | inr past ↦ rw (b, past) rest
        ]
  ]
]

insert_ordered-IsKeyed :
    (d : JobQueueEntry) (es : Queue)
    → lookup id_of (id_of d) es ≡ none
    → IsKeyed id_of es
    → IsKeyed id_of (insert_ordered d es)
insert_ordered-IsKeyed d [] h u = (refl, tt)
insert_ordered-IsKeyed d (e ∷ es) h (new, u) = elim (Bool-cases (goes_before d e)) [
  | inl b ↦ rw b (h, (new, u))
  | inr b ↦ elim (Bool-cases (id_of e == id_of d)) [
    | inl same ↦ absurd (ground arith)
    | inr other ↦
        let past = (rw other at h) in
        let foreign : (id_of d == id_of e) ≡ false = ground arith in
        rw b (
          lookup-insert_ordered (id_of e) d es past ∙ rw foreign new,
          insert_ordered-IsKeyed d es past u,
        )
  ]
]

lookup-order :
    (k : ℕ) (es : Queue) → IsKeyed id_of es → lookup id_of k (order es) ≡ lookup id_of k es
lookup-order k [] u = refl
lookup-order k (e ∷ es) (new, u) =
    lookup-insert_ordered k e (order es) (lookup-order (id_of e) es u ∙ new)
    ∙ ap (λ r. if id_of e == k then some e else r) (lookup-order k es u)

order-IsKeyed : (es : Queue) → IsKeyed id_of es → IsKeyed id_of (order es)
order-IsKeyed [] u = tt
order-IsKeyed (e ∷ es) (new, u) =
    insert_ordered-IsKeyed e (order es) (lookup-order (id_of e) es u ∙ new) (order-IsKeyed es u)

-- A claimable row of the table is listed, and no other.
pub lookup-list_claimable :
    (now k : ℕ) (q : Queue)
    → IsKeyed id_of q
    → lookup id_of k (list_claimable now q) ≡ keep_if (is_claimable now) (get k q)
unfolding list_claimable
lookup-list_claimable now k q u =
    lookup-order k (filter (is_claimable now) q) (filter-IsKeyed id_of (is_claimable now) q u)
    ∙ lookup-filter id_of (is_claimable now) k q u

pub list_claimable-IsKeyed :
    (now : ℕ) (q : Queue) → IsKeyed id_of q → IsKeyed id_of (list_claimable now q)
unfolding list_claimable
list_claimable-IsKeyed now q u = order-IsKeyed _ (filter-IsKeyed id_of (is_claimable now) q u)

pub list_claimable-IsOrdered : (now : ℕ) (q : Queue) → IsOrdered (list_claimable now q)
unfolding list_claimable
list_claimable-IsOrdered now q = order-IsOrdered (filter (is_claimable now) q)

pub All-list_claimable :
    (P : JobQueueEntry → Type 0) (now : ℕ) (q : Queue)
    → All P (list_claimable now q)
    → All (λ e. is_claimable now e ≡ true → P e) q
unfolding list_claimable
All-list_claimable P now q h =
    All-filter P (is_claimable now) q (All-order P (filter (is_claimable now) q) h)
