-- ===== src/Evaluator/Types.antt =====
-- src/verification-providers/verification-provider.types.ts. Members that are checked when they are
-- read are texts; numbers are natural ones.
use jagalchi_api.Base.{ℕ, String, Bool, Option, List, Result}

pub record NamedCheckFact : Type 0 where
  pub context : String
  pub conclusion : String
  pub completed_at : Option String

pub record PullRequestFacts : Type 0 where
  pub schema_version : ℕ
  pub provider : String
  pub repository_id : String
  pub pull_number : ℕ
  pub head_sha : String
  pub base_branch : String
  pub state : String
  pub merged_at : Option String
  pub changed_paths : List String
  pub named_checks : List NamedCheckFact
  pub observed_at : String
  pub facts_digest : String

pub record RepositoryBindingFacts : Type 0 where
  pub schema_version : ℕ
  pub provider : String
  pub repository_id : String
  pub full_name : String
  pub is_private : Bool
  pub default_branch : String
  pub observed_at : String
  pub facts_digest : String

-- `TaskEvidenceRule`; `other` is a rule of a type that is none of these.
pub data TaskEvidenceRule : Type 0 where
  merged_pr : String → TaskEvidenceRule
  base_branch changed_path named_check : String → String → TaskEvidenceRule
  other : String → TaskEvidenceRule

abbrev pub rule_id : TaskEvidenceRule → String
rule_id (merged_pr id) = id
rule_id (base_branch id _) = id
rule_id (changed_path id _) = id
rule_id (named_check id _) = id
rule_id (other id) = id

pub data EvaluationCode : Type 0 where
  pass pr_not_merged base_branch_mismatch changed_path_missing named_check_missing
        named_check_not_successful :
      EvaluationCode

pub record TaskEvidenceEvaluation : Type 0 where
  pub rule : TaskEvidenceRule
  pub passed : Bool
  pub code : EvaluationCode

pub record VerificationFence : Type 0 where
  pub binding_version : ℕ
  pub criteria_version : ℕ
  pub expected_head_sha : String

pub record MachineProofResult : Type 0 where
  pub provider : String
  pub status : Bool
  pub repository_id : String
  pub pull_number : ℕ
  pub head_sha : String
  pub fence : VerificationFence
  pub evaluations : List TaskEvidenceEvaluation
  pub observed_at : String
  pub facts_digest : String

-- What is thrown; `syntax_error` is that of the constructor of regular expressions.
pub data Error : Type 0 where
  facts_invalid rule_unsupported provider_drifted syntax_error : Error

abbrev pub Outcome : Type 0 → Type 0
Outcome A = Result Error A
