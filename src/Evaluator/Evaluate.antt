-- ===== src/Evaluator/Evaluate.antt =====
-- `DeterministicTaskEvidenceEvaluator.evaluate` (src/verification-providers/verification-evaluator.ts).
use jagalchi_api.Base.{
  ℕ, String, Bool, false, none, some, List, [], ◌∷◌, ◌&&◌, ◌||◌, not, str_eq, all, map, find_where,
  if◌then◌else◌, ok, err,
}
use jagalchi_api.Base.Int.{pos}
use jagalchi_api.Json.{Json, Items, bool, num, text, arr, obj, nil, cons, end, field}
use jagalchi_api.Json.Canonical.{Runtime}
use jagalchi_api.Evaluator.Types.{
  NamedCheckFact, PullRequestFacts, TaskEvidenceRule, merged_pr, base_branch, changed_path,
  named_check, other, rule_id, EvaluationCode, pass, pr_not_merged, base_branch_mismatch,
  changed_path_missing, named_check_missing, named_check_not_successful, TaskEvidenceEvaluation,
  VerificationFence, MachineProofResult, Outcome, rule_unsupported, provider_drifted, syntax_error,
}
use jagalchi_api.Evaluator.Globs.{Atom, codes, compile, matches}
use jagalchi_api.Evaluator.Digest.{verification_facts_digest}
use jagalchi_api.Evaluator.Facts.{
  is_valid_rule, repeats, is_safe_positive, is_hex_text, assert_pull_request_facts,
}

unfoldable pub any_matches : List Atom → List String → Bool
unfolding codes matches
any_matches atoms [] = false
any_matches atoms (p ∷ ps) = matches atoms (codes p) || any_matches atoms ps

-- `paths.some((path) => pathMatches(glob, path))`: no expression is built where there is no path.
unfoldable pub some_path_matches : String → List String → Outcome Bool
unfolding codes compile any_matches
some_path_matches glob [] = ok false
some_path_matches glob (path ∷ paths) = elim (compile false (codes glob)) [
  | none ↦ err syntax_error
  | some atoms ↦ ok (any_matches atoms (path ∷ paths))
]

abbrev pub evaluation : TaskEvidenceRule → Bool → EvaluationCode → TaskEvidenceEvaluation
evaluation rule passed code = record {
  rule = rule;
  passed = passed;
  code = if passed then pass else code;
}

abbrev pub has_context : String → NamedCheckFact → Bool
has_context context c = str_eq c.context context

-- The evaluation of a rule that is valid.
unfoldable pub evaluate_rule : PullRequestFacts → TaskEvidenceRule → Outcome TaskEvidenceEvaluation
unfolding some_path_matches find_where
evaluate_rule f (merged_pr id) =
    ok (evaluation (merged_pr id) (str_eq f.state "MERGED") pr_not_merged)
evaluate_rule f (base_branch id branch) =
    ok (evaluation (base_branch id branch) (str_eq f.base_branch branch) base_branch_mismatch)
evaluate_rule f (changed_path id glob) = elim (some_path_matches glob f.changed_paths) [
  | err e ↦ err e
  | ok passed ↦ ok (evaluation (changed_path id glob) passed changed_path_missing)
]
evaluate_rule f (named_check id context) = elim (find_where (has_context context) f.named_checks) [
  | none ↦ ok (evaluation (named_check id context) false named_check_missing)
  | some check ↦ ok (
      evaluation (named_check id context) (str_eq check.conclusion "SUCCESS")
        named_check_not_successful)
]
evaluate_rule f (other id) = err rule_unsupported

-- `rules.map`, which throws at the first rule that throws.
unfoldable pub evaluate_rules :
    PullRequestFacts → List TaskEvidenceRule → Outcome (List TaskEvidenceEvaluation)
unfolding evaluate_rule is_valid_rule
evaluate_rules f [] = ok []
evaluate_rules f (r ∷ rs) =
    let rest = evaluate_rules f rs in
    if not (is_valid_rule r) then err rule_unsupported else elim (evaluate_rule f r) [
      | err e ↦ err e
      | ok one ↦ elim rest [ err e ↦ err e | ok more ↦ ok (one ∷ more) ]
    ]

-- The names of rules and codes in a proof.
abbrev rule_type : TaskEvidenceRule → String
rule_type (merged_pr _) = "MERGED_PR"
rule_type (base_branch _ _) = "BASE_BRANCH"
rule_type (changed_path _ _) = "CHANGED_PATH"
rule_type (named_check _ _) = "NAMED_CHECK"
rule_type (other _) = ""

abbrev code_name : EvaluationCode → String
code_name pass = "PASS"
code_name pr_not_merged = "PR_NOT_MERGED"
code_name base_branch_mismatch = "BASE_BRANCH_MISMATCH"
code_name changed_path_missing = "CHANGED_PATH_MISSING"
code_name named_check_missing = "NAMED_CHECK_MISSING"
code_name named_check_not_successful = "NAMED_CHECK_NOT_SUCCESSFUL"

evaluation_items : List TaskEvidenceEvaluation → Items
evaluation_items [] = nil
evaluation_items (e ∷ es) =
    cons
      (obj (
        field "ruleId" (text (rule_id e.rule)) (
          field "type" (text (rule_type e.rule))
            (field "passed" (bool e.passed) (field "code" (text (code_name e.code)) end)))))
      (evaluation_items es)

abbrev fence_json : VerificationFence → Json
fence_json fence = obj (
    field "bindingVersion" (num (pos fence.binding_version)) (
      field "criteriaVersion" (num (pos fence.criteria_version))
        (field "expectedHeadSha" (text fence.expected_head_sha) end)))

-- `proofWithoutDigest`, of which `status` is whether it is `PASS`.
unfoldable pub proof_json :
    PullRequestFacts → VerificationFence → List TaskEvidenceEvaluation → Bool → Json
unfolding evaluation_items
proof_json f fence es status = obj (
    field "schemaVersion" (num (pos 1)) (
      field "provider" (text f.provider) (
        field "status" (text (if status then "PASS" else "FAIL")) (
          field "repositoryId" (text f.repository_id) (
            field "pullNumber" (num (pos f.pull_number)) (
              field "headSha" (text f.head_sha) (
                field "fence" (fence_json fence) (
                  field "evaluations" (arr (evaluation_items es))
                    (field "observedAt" (text f.observed_at) end)))))))))

-- The condition on rules and fence, negated.
unfoldable pub is_valid_request : List TaskEvidenceRule → VerificationFence → Bool
unfolding repeats is_hex_text
is_valid_request [] fence = false
is_valid_request (r ∷ rs) fence =
    not (repeats (map rule_id (r ∷ rs)))
    && is_safe_positive fence.binding_version
    && is_safe_positive fence.criteria_version
    && is_hex_text 40 fence.expected_head_sha

module _ (rt : Runtime) (parses : String → Bool) (is_space : ℕ → Bool) where
  unfoldable pub make_proof :
      PullRequestFacts → VerificationFence → List TaskEvidenceEvaluation → MachineProofResult
  unfolding verification_facts_digest proof_json all
  make_proof f fence es =
      let status = all (λ (e : TaskEvidenceEvaluation). e.passed) es in
      record {
        provider = f.provider;
        status = status;
        repository_id = f.repository_id;
        pull_number = f.pull_number;
        head_sha = f.head_sha;
        fence = fence;
        evaluations = es;
        observed_at = f.observed_at;
        facts_digest = verification_facts_digest rt (proof_json f fence es status);
      }

  unfoldable pub evaluate :
      PullRequestFacts → List TaskEvidenceRule → VerificationFence → Outcome MachineProofResult
  unfolding assert_pull_request_facts is_valid_request evaluate_rules make_proof
  evaluate f rules fence = elim (assert_pull_request_facts rt parses is_space f) [
    | err e ↦ err e
    | ok _ ↦
        if not (is_valid_request rules fence)
        then err rule_unsupported
        else if not (str_eq f.head_sha fence.expected_head_sha)
        then err provider_drifted
        else elim (evaluate_rules f rules) [ err e ↦ err e | ok es ↦ ok (make_proof f fence es) ]
  ]
