-- ===== src/Evaluator/Tests.antt =====
-- Examples of globs and proofs (src/verification-providers/verification-evaluator.ts).
use jagalchi_api.Base.{
  String, Bool, true, false, none, some, List, [], ◌∷◌, ◌≡◌, ◌↔◌, refl, arith, All, ok, err,
}
use jagalchi_api.Json.Canonical.{Runtime}
use jagalchi_api.Evaluator.Pieces.{
  Piece, char, in_a_path, write, IsPlain, Describes, some_path_matches-Describes,
}
use jagalchi_api.Evaluator.Types.{
  PullRequestFacts, TaskEvidenceRule, merged_pr, changed_path, named_check, MachineProofResult,
  VerificationFence,
}
use jagalchi_api.Evaluator.Globs.{codes, compile, matches}
use jagalchi_api.Evaluator.Meaning.{Some}
use jagalchi_api.Evaluator.Evaluate.{make_proof, evaluate, some_path_matches}
use jagalchi_api.Evaluator.Rules.{Holds, evaluate-Holds}

-- Whether the expression of a glob is built, and accepts a path.
abbrev accepts : String → String → Bool
accepts glob path = elim (compile false (codes glob)) [
  | none ↦ false
  | some atoms ↦ matches atoms (codes path)
]

nested : accepts "src/**/*.ts" "src/a/b/c.ts" ≡ true
unfolding compile codes matches
nested = refl

one_level : accepts "src/*.ts" "src/a/b.ts" ≡ false
unfolding compile codes matches
one_level = refl

-- The question mark is a quantifier: the letter before it may be missing, and none may stand for it.
question_mark : accepts "a?.ts" ".ts" ≡ true
unfolding compile codes matches
question_mark = refl

question_mark_char : accepts "a?.ts" "ab.ts" ≡ false
unfolding compile codes matches
question_mark_char = refl

-- `a/**`
abbrev below_a : List Piece
below_a = char 97 ∷ char 47 ∷ in_a_path ∷ []

below_a-IsPlain : IsPlain below_a
below_a-IsPlain = ground arith

some_path_matches-Describes_example :
    (passed : Bool) × (some_path_matches "a/**" ("b/c" ∷ "a/b/c" ∷ []) ≡ ok passed)
    × ((passed ≡ true) ↔ Some (λ p. Describes below_a (codes p)) ("b/c" ∷ "a/b/c" ∷ []))
unfolding codes write
some_path_matches-Describes_example =
    some_path_matches-Describes "a/**" below_a ("b/c" ∷ "a/b/c" ∷ []) refl below_a-IsPlain

abbrev toy : Runtime
toy = record {
  locale_lt = λ a b. false;
  stringify = λ j. "";
  sha256 = λ s. "0000000000000000000000000000000000000000000000000000000000000000";
}

abbrev head_sha : String
head_sha = "0123456789012345678901234567890123456789"

abbrev merged : PullRequestFacts
merged = record {
  schema_version = 1;
  provider = "fixture";
  repository_id = "r1";
  pull_number = 7;
  head_sha = head_sha;
  base_branch = "main";
  state = "MERGED";
  merged_at = some "2026-01-01T00:00:00Z";
  changed_paths = "src/a.ts" ∷ [];
  named_checks = record { context = "ci"; conclusion = "FAILURE"; completed_at = none } ∷ [];
  observed_at = "2026-01-01T00:00:00Z";
  facts_digest = "0000000000000000000000000000000000000000000000000000000000000000";
}

abbrev wanted : List TaskEvidenceRule
wanted = merged_pr "m" ∷ changed_path "p" "src/*.ts" ∷ named_check "c" "ci" ∷ []

abbrev fence : VerificationFence
fence = record { binding_version = 1; criteria_version = 1; expected_head_sha = head_sha }

abbrev machine_proof : MachineProofResult
unfolding evaluate make_proof
machine_proof = elim (evaluate toy (λ t. true) (λ c. false) merged wanted fence) [
  | ok proof ↦ proof
  | err _ ↦ make_proof toy (λ t. true) (λ c. false) merged fence []
]

-- A check that failed is not made up for by the other rules.
evaluate-Holds_example : (machine_proof.status ≡ true) ↔ All (λ r. Holds merged r) wanted
unfolding evaluate
evaluate-Holds_example =
    evaluate-Holds toy (λ t. true) (λ c. false) merged wanted fence machine_proof refl

failed : machine_proof.status ≡ false
unfolding machine_proof
failed = refl
