-- ===== src/Workflow/Scheduling.antt =====
-- Which operation `claim` takes (src/workflow-operations/workflow-operation.service.ts), and the
-- delays between attempts (src/workflow-operations/workflow-runtime.ts).
use native.Mathlib.Nat.{pow-le-pow_right}
use jagalchi_api.Base.{
  ℕ, String, Bool, true, false, Option, none, some, List, [], ◌∷◌, ◌≡◌, refl, ◌≤◌, ◌-◌, ◌*◌, ◌^◌,
  arith, All, All-map, keep, ◌&&◌, not, Option-cases, inl, inr, if◌then◌else◌, if_eq, find_by,
  find_by-All, find_by-save, eq_refl, All-of_keep, subst, ◌∙◌,
}
use jagalchi_api.Workflow.Types.{Operation, Store}
use jagalchi_api.Workflow.Backoff.{BackoffPolicy, delay_ms}
use jagalchi_api.Workflow.Claim.{
  op_id, is_claimable, is_earlier, first_of_order, select_claim, lease_to, claim, is_empty_list,
}
use jagalchi_api.Workflow.Sound.{StoreValid}
use jagalchi_api.Workflow.Leasing.{select_claim-All}

not_true : (b : Bool) → (b ≡ true → ⊥) → b ≡ false
not_true true h = absurd (h refl)
not_true false h = refl

later_than :
    (x y o : Operation) → is_earlier o y ≡ false → is_earlier y x ≡ false → is_earlier o x ≡ false
later_than x y o h k = ground arith

earlier_asym : (x y : Operation) → is_earlier y x ≡ true → is_earlier x y ≡ false
earlier_asym x y h = ground arith

earlier_irrefl : (x : Operation) → is_earlier x x ≡ false
earlier_irrefl x = ground arith

first_of_order-none :
    (P : Operation → Type 0) (xs : List Operation) → first_of_order xs ≡ none → All P xs
unfolding first_of_order
first_of_order-none P [] e = tt
first_of_order-none P (x ∷ xs) e = elim (Option-cases (first_of_order xs)) [
  | inl n ↦ let g : some x ≡ none = rw (n, first_of_order) at e in cc
  | inr (y, n) ↦
      let g : (if is_earlier y x then some y else some x) ≡ none = rw (n, first_of_order) at e in
      if_eq (is_earlier y x) g (λ _ q. cc) (λ _ q. cc)
]

-- No row comes before the first of the order.
abbrev IsLeast : List Operation → Operation → Type 0
IsLeast xs op = All (λ o. is_earlier o op ≡ false) xs

first_of_order-IsLeast :
    (xs : List Operation) {op : Operation} → first_of_order xs ≡ some op → IsLeast xs op
unfolding first_of_order
first_of_order-IsLeast [] e = tt
first_of_order-IsLeast (x ∷ xs) {op} e = elim (Option-cases (first_of_order xs)) [
  | inl n ↦
      let g : some x ≡ some op = rw (n, first_of_order) at e in
      subst (IsLeast (x ∷ xs)) {x = x} {y = op} (cc) (earlier_irrefl x, first_of_order-none _ xs n)
  | inr (y, n) ↦
      let g : (if is_earlier y x then some y else some x) ≡ some op = rw (n, first_of_order) at e in
      if_eq (is_earlier y x) g
        (λ h q.
          subst (IsLeast (x ∷ xs)) {x = y} {y = op} (cc)
            (earlier_asym x y h, first_of_order-IsLeast xs n))
        (λ h q. subst (IsLeast (x ∷ xs)) {x = x} {y = op} (cc) (
          earlier_irrefl x,
          All-map _ _ xs (λ o k. later_than x y o k h) (first_of_order-IsLeast xs n),
        ))
]

not_both : (a b : Bool) → (a ≡ true → b ≡ false) → (a && b) ≡ false
not_both true b h = h refl
not_both false b h = refl

-- The rows that a call may take: claimable, and held by no other transaction.
abbrev pub is_free : ℕ → Option (List String) → (String → Bool) → Operation → Bool
is_free asked kinds locked o = is_claimable asked kinds o && not (locked o.id)

module _ (worker : String) (lease_ms : ℕ) (kinds : Option (List String)) (locked : String → Bool)
    (asked now : ℕ) (s : Store) where
  -- What a call of `claim` has done, by what it returned.
  abbrev pub ClaimSpec : Option Operation × Store → Type 0
  ClaimSpec (none, t) = (t ≡ s) × All (λ o. is_free asked kinds locked o ≡ false) s.operations
  ClaimSpec (some op', t) =
      (op : Operation) × (find_by op_id op.id s.operations ≡ some op)
      × (is_free asked kinds locked op ≡ true)
      × All (λ o. (is_free asked kinds locked o && is_earlier o op) ≡ false) s.operations
      × (op' ≡ lease_to worker lease_ms now op)
      × (find_by op_id op.id t.operations ≡ some op')

  -- `claim` takes an operation whenever there is one that it may take, and of those the one that is
  -- first by the time of its next attempt and then by its creation; it comes back leased, as it is
  -- stored. Otherwise the store is left as it was.
  pub claim-ClaimSpec :
      StoreValid s.operations s.results
      → is_empty_list kinds ≡ false
      → ClaimSpec (claim worker lease_ms kinds locked asked now s)
  unfolding claim select_claim lease_to
  claim-ClaimSpec v some_kinds =
      let free = is_free asked kinds locked in
      rw some_kinds (elim (Option-cases (select_claim asked kinds locked s.operations)) [
        | inl e ↦ rw e (
          refl,
          All-map _ _ s.operations (λ o h. not_true (free o) h)
              (All-of_keep (λ _. ⊥) free s.operations
                (first_of_order-none (λ _. ⊥) (keep free s.operations) e)),
        )
        | inr (op, e) ↦
            let (found, c, l) =
              select_claim-All asked kinds locked
                (λ a. find_by op_id (op_id a) s.operations ≡ some a) s.operations
                (find_by-All op_id s.operations v.distinct) e in
            rw e (
              op,
              found,
              ground arith,
              All-map _ _ s.operations (λ o h. not_both (free o) (is_earlier o op) h)
                  (All-of_keep (λ o. is_earlier o op ≡ false) free s.operations
                    (first_of_order-IsLeast (keep free s.operations) e)),
              refl,
              find_by-save op_id op.id (lease_to worker lease_ms now op) s.operations
                  ∙ (rw (eq_refl op.id)),
            )
      ])

-- The delay before the next attempt never passes the maximum, and does not fall as attempts go on.
pub delay_ms_bounds :
    (p : BackoffPolicy) (a b : ℕ)
    → a ≤ b
    → (delay_ms p b ≤ p.maximum) × (delay_ms p a ≤ delay_ms p b) × (delay_ms p 0 ≡ delay_ms p 1)
unfolding delay_ms
delay_ms_bounds p a b h =
    let powers : 2 ^ (a - 1) ≤ 2 ^ (b - 1) = pow-le-pow_right (omega arith) (omega arith) in
    let products : p.base * 2 ^ (a - 1) ≤ p.base * 2 ^ (b - 1) = grind arith in
    (omega arith, omega arith, refl)
