-- ===== src/Evaluator/Rules.antt =====
-- What a machine proof says of the facts (src/verification-providers/verification-evaluator.ts).
use jagalchi_api.Base.{
  ℕ, String, Bool, true, false, none, some, List, [], ◌∷◌, ◌≡◌, ◌↔◌, inl, inr, refl, sym, ◌∙◌,
  subst, ◌&&◌, ◌||◌, not, str_eq, find_where, all, any, map, All, Bool-cases, Option-cases,
  Result-cases, if_ind, eq_iff, arith, ok, err,
}
use jagalchi_api.Json.Canonical.{Runtime}
use jagalchi_api.Evaluator.Types.{
  NamedCheckFact, PullRequestFacts, TaskEvidenceRule, merged_pr, base_branch, changed_path,
  named_check, other, TaskEvidenceEvaluation, VerificationFence, MachineProofResult, Outcome,
}
use jagalchi_api.Evaluator.Globs.{Atom, codes, compile, matches}
use jagalchi_api.Evaluator.Meaning.{
  Some, Denotes, either, both, left_of, right_of, matches_sound, matches_complete,
}
use jagalchi_api.Evaluator.Facts.{
  is_valid_facts, is_valid_rule, repeats, one_of, assert_pull_request_facts,
}
use jagalchi_api.Evaluator.Evaluate.{
  any_matches, some_path_matches, has_context, evaluate_rule, evaluate_rules, is_valid_request,
  make_proof, evaluate,
}

-- A path of the list is described by the glob.
abbrev pub IsChanged : String → List String → Type 0
IsChanged glob paths =
    (atoms : List Atom) × (compile false (codes glob) ≡ some atoms)
    × Some (λ p. Denotes atoms (codes p)) paths

-- What a rule wants of the facts.
abbrev pub Holds : PullRequestFacts → TaskEvidenceRule → Type 0
Holds f (merged_pr id) = f.state ≡ "MERGED"
Holds f (base_branch id branch) = f.base_branch ≡ branch
Holds f (changed_path id glob) = IsChanged glob f.changed_paths
Holds f (named_check id context) =
    Some (λ (c : NamedCheckFact). (c.context ≡ context) × (c.conclusion ≡ "SUCCESS")) f.named_checks
Holds f (other id) = ⊥

pub any_matches-Some :
    (atoms : List Atom) (paths : List String)
    → (any_matches atoms paths ≡ true) ↔ Some (λ p. Denotes atoms (codes p)) paths
unfolding any_matches
any_matches-Some atoms [] = ((λ h. cc), (λ s. absurd s))
any_matches-Some atoms (p ∷ ps) =
    let ih = any_matches-Some atoms ps in
    (
      (λ h. elim (either (matches atoms (codes p)) (any_matches atoms ps) h) [
        | inl e ↦ inl (matches_sound atoms (codes p) e)
        | inr e ↦ inr (ih.0 e)
      ]),
      (λ s. elim s [
        | inl d ↦ left_of (matches atoms (codes p)) _ (matches_complete atoms (codes p) d)
        | inr more ↦ right_of (matches atoms (codes p)) _ (ih.1 more)
      ]),
    )

-- The contexts of checks are distinct.
abbrev contexts : List NamedCheckFact → List String
contexts cs = map (λ (c : NamedCheckFact). c.context) cs

abbrev Succeeds : String → NamedCheckFact → Type 0
Succeeds context c = (c.context ≡ context) × (c.conclusion ≡ "SUCCESS")

-- What the rule of a check finds: the check of that context, and whether it succeeded.
abbrev found : String → List NamedCheckFact → Bool
found context cs = elim (find_where (has_context context) cs) [
  | none ↦ false
  | some c ↦ str_eq c.conclusion "SUCCESS"
]

Some-listed :
    (context : String) (cs : List NamedCheckFact)
    → Some (λ c. Succeeds context c) cs
    → one_of (contexts cs) context ≡ true
unfolding one_of any
Some-listed context [] s = absurd s
Some-listed context (c ∷ cs) (inl (e, _)) =
    left_of (str_eq context c.context) _ ((eq_iff context c.context).1 (sym e))
Some-listed context (c ∷ cs) (inr more) =
    right_of (str_eq context c.context) _ (Some-listed context cs more)

neither : (a b : Bool) → (a || b) ≡ false → (a ≡ false) × (b ≡ false)
neither a b h = ground arith

clash : {b : Bool} → b ≡ true → b ≡ false → ⊥
clash h k = cc

found-Some :
    (context : String) (cs : List NamedCheckFact)
    → repeats (contexts cs) ≡ false
    → (found context cs ≡ true) ↔ Some (λ c. Succeeds context c) cs
unfolding find_where repeats
found-Some context [] d = ((λ h. cc), (λ s. absurd s))
found-Some context (c ∷ cs) d = elim (Bool-cases (str_eq c.context context)) [
  | inl e ↦
      let same = (eq_iff c.context context).0 e in
      (
        (λ h.
            let k : str_eq c.conclusion "SUCCESS" ≡ true = rw (e, find_where, found) at h in
            inl (same, (eq_iff c.conclusion "SUCCESS").0 k)),
        (λ s. elim s [
          | inl (_, k) ↦ rw (e, find_where, found) ((eq_iff c.conclusion "SUCCESS").1 k)
          | inr more ↦ absurd (
              clash
                (subst (λ x. one_of (contexts cs) x ≡ true) (sym same)
                  (Some-listed context cs more))
                (neither (one_of (contexts cs) c.context) _ d).0)
        ]),
      )
  | inr e ↦
      let ih = found-Some context cs (neither (one_of (contexts cs) c.context) _ d).1 in
      (
        (λ h. let k : found context cs ≡ true = rw (e, find_where, found) at h in inr (ih.0 k)),
        (λ s. elim s [
          | inl (k, _) ↦ absurd (clash ((eq_iff c.context context).1 k) e)
          | inr more ↦ rw (e, find_where, found) (ih.1 more)
        ]),
      )
]

-- What an evaluation that is made says: that the rule holds, exactly where it does.
abbrev Says : PullRequestFacts → TaskEvidenceRule → Outcome TaskEvidenceEvaluation → Type 0
Says f r (ok e) = (e.passed ≡ true) ↔ Holds f r
Says f r (err _) = Unit

-- The same of the paths.
abbrev SaysPath : String → List String → Outcome Bool → Type 0
SaysPath glob paths (ok b) = (b ≡ true) ↔ IsChanged glob paths
SaysPath glob paths (err _) = Unit

some_eq : {x y : List Atom} → some x ≡ some y → x ≡ y
some_eq h = cc

some_path_matches-Says :
    (glob : String) (paths : List String) → SaysPath glob paths (some_path_matches glob paths)
unfolding some_path_matches
some_path_matches-Says glob [] = ((λ h. cc), (λ (_, _, s). absurd s))
some_path_matches-Says glob (p ∷ ps) = elim (Option-cases (compile false (codes glob))) [
  | inl e ↦ rw (e, some_path_matches) tt
  | inr (atoms, e) ↦
      let mean = any_matches-Some atoms (p ∷ ps) in
      rw (e, some_path_matches)
        (
          (λ h. (atoms, e, mean.0 h)),
          (λ (atoms', k, s).
              mean.1 (
                subst (λ seq. Some (λ q. Denotes seq (codes q)) (p ∷ ps)) (some_eq (sym k ∙ e)) s)),
        )
]

evaluate_rule-Says :
    (f : PullRequestFacts) (r : TaskEvidenceRule)
    → repeats (contexts f.named_checks) ≡ false
    → Says f r (evaluate_rule f r)
unfolding evaluate_rule some_path_matches
evaluate_rule-Says f (merged_pr id) d = ((eq_iff f.state "MERGED").0, (eq_iff f.state "MERGED").1)
evaluate_rule-Says f (base_branch id branch) d =
    ((eq_iff f.base_branch branch).0, (eq_iff f.base_branch branch).1)
evaluate_rule-Says f (changed_path id glob) d =
    let says = some_path_matches-Says glob f.changed_paths in
    elim (Result-cases (some_path_matches glob f.changed_paths)) [
      | inl (b, e) ↦ rw (e, evaluate_rule) (subst (SaysPath glob f.changed_paths) e says)
      | inr (x, e) ↦ rw (e, evaluate_rule) tt
    ]
evaluate_rule-Says f (named_check id context) d =
    let mean = found-Some context f.named_checks d in
    elim (Option-cases (find_where (has_context context) f.named_checks)) [
      | inl e ↦
          rw (e, evaluate_rule)
            (subst (λ b. (b ≡ true) ↔ Holds f (named_check id context)) (rw (e, found) refl) mean)
      | inr (c, e) ↦
          rw (e, evaluate_rule)
            (subst (λ b. (b ≡ true) ↔ Holds f (named_check id context)) (rw (e, found) refl) mean)
    ]
evaluate_rule-Says f (other id) d = tt

-- The evaluations of all rules: they all passed exactly where all rules hold.
abbrev SaysAll :
    PullRequestFacts → List TaskEvidenceRule → Outcome (List TaskEvidenceEvaluation) → Type 0
SaysAll f rules (ok es) =
    (all (λ (e : TaskEvidenceEvaluation). e.passed) es ≡ true) ↔ All (λ r. Holds f r) rules
SaysAll f rules (err _) = Unit

evaluate_rules-Says :
    (f : PullRequestFacts) (rules : List TaskEvidenceRule)
    → repeats (contexts f.named_checks) ≡ false
    → SaysAll f rules (evaluate_rules f rules)
unfolding evaluate_rules all
evaluate_rules-Says f [] d = ((λ _. tt), (λ _. refl))
evaluate_rules-Says f (r ∷ rs) d =
    let ih = evaluate_rules-Says f rs d in
    let says = evaluate_rule-Says f r d in
    if_ind (SaysAll f (r ∷ rs)) (not (is_valid_rule r)) (λ _. tt)
      (λ _. elim (Result-cases (evaluate_rule f r)) [
        | inr (x, h) ↦ rw (h) tt
        | inl (e, h) ↦ elim (Result-cases (evaluate_rules f rs)) [
          | inr (x, k) ↦ rw (h, k) tt
          | inl (es, k) ↦
              let one : (e.passed ≡ true) ↔ Holds f r = subst (Says f r) h says in
              let more : (all (λ (x : TaskEvidenceEvaluation). x.passed) es ≡ true)
                  ↔ All (λ x. Holds f x) rs =
                subst (SaysAll f rs) k ih in
              rw (h, k)
                (
                  (λ q. let (a, b) = both e.passed _ q in (one.0 a, more.0 b)),
                  (λ (a, b). join (one.1 a) (more.1 b)),
                )
        ]
      ])
  where
    join : {a b : Bool} → a ≡ true → b ≡ true → (a && b) ≡ true
    join h k = cc

module _ (rt : Runtime) (parses : String → Bool) (is_space : ℕ → Bool) where
  -- What a proof says.
  abbrev Proves : PullRequestFacts → List TaskEvidenceRule → Outcome MachineProofResult → Type 0
  Proves f rules (ok proof) = (proof.status ≡ true) ↔ All (λ r. Holds f r) rules
  Proves f rules (err _) = Unit

  distinct_contexts :
      (f : PullRequestFacts)
      → is_valid_facts rt parses is_space f ≡ true
      → repeats (contexts f.named_checks) ≡ false
  unfolding is_valid_facts
  distinct_contexts f h = ground arith

  evaluate-Proves :
      (f : PullRequestFacts) (rules : List TaskEvidenceRule) (fence : VerificationFence)
      → Proves f rules (evaluate rt parses is_space f rules fence)
  unfolding evaluate assert_pull_request_facts make_proof
  evaluate-Proves f rules fence = elim (Bool-cases (is_valid_facts rt parses is_space f)) [
    | inr h ↦ rw (h, evaluate, assert_pull_request_facts) tt
    | inl h ↦
        let says = evaluate_rules-Says f rules (distinct_contexts f h) in
        rw (h, evaluate, assert_pull_request_facts)
          (if_ind (Proves f rules) (not (is_valid_request rules fence)) (λ _. tt)
            (λ _.
              if_ind (Proves f rules) (not (str_eq f.head_sha fence.expected_head_sha)) (λ _. tt)
                (λ _. elim (Result-cases (evaluate_rules f rules)) [
                  | inr (x, k) ↦ rw k tt
                  | inl (es, k) ↦ rw k (subst (SaysAll f rules) k says)
                ])))
  ]

-- A machine proof passes exactly where every rule holds of the facts: the pull request was merged, it
-- has that base branch, a changed path is described by the glob, or the check of that context
-- succeeded.
pub evaluate-Holds :
    (rt : Runtime) (parses : String → Bool) (is_space : ℕ → Bool) (f : PullRequestFacts)
    (rules : List TaskEvidenceRule) (fence : VerificationFence) (proof : MachineProofResult)
    → evaluate rt parses is_space f rules fence ≡ ok proof
    → (proof.status ≡ true) ↔ All (λ r. Holds f r) rules
evaluate-Holds rt parses is_space f rules fence proof h =
    subst (Proves rt parses is_space f rules) h (evaluate-Proves rt parses is_space f rules fence)
