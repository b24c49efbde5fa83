-- ===== src/Evaluator/Facts.antt =====
-- The checks of facts and rules (src/verification-providers/verification-evaluator.ts).
use jagalchi_api.Base.{
  ℕ, String, Bool, true, false, Option, none, some, List, [], ◌∷◌, ◌&&◌, ◌||◌, ◌^◌, not, ltb, leb,
  ◌==◌, str_eq, is_some, length, units, any, all, map, split_on, lacks, if◌then◌else◌, has_prefix,
  ok, err,
}
use jagalchi_api.Base.Int.{pos}
use jagalchi_api.Json.{Json, Items, null, bool, num, text, arr, obj, nil, cons, end, field}
use jagalchi_api.Json.Canonical.{Runtime}
use jagalchi_api.Evaluator.Types.{
  NamedCheckFact, PullRequestFacts, RepositoryBindingFacts, TaskEvidenceRule, merged_pr,
  base_branch, changed_path, named_check, other, Outcome, facts_invalid,
}
use jagalchi_api.Evaluator.Digest.{verification_facts_digest}

abbrev pub between : ℕ → ℕ → ℕ → Bool
between lo hi c = leb lo c && leb c hi

abbrev pub is_hex : ℕ → Bool
is_hex c = between 48 57 c || between 97 102 c

abbrev pub is_alphanumeric : ℕ → Bool
is_alphanumeric c = between 65 90 c || between 97 122 c || between 48 57 c

-- `SHA`, and the expression of a digest: so many hexadecimal digits.
unfoldable pub is_hex_text : ℕ → String → Bool
unfolding units all
is_hex_text n s = (length (units s) == n) && all is_hex (units s)

-- `ID`
unfoldable pub is_id_units : List ℕ → Bool
unfolding all
is_id_units [] = false
is_id_units (c ∷ cs) =
    is_alphanumeric c
    && ltb (length cs) 128
    && all (λ d. is_alphanumeric d || d == 46 || d == 95 || d == 58 || d == 45) cs

abbrev pub no_text : String → Bool
no_text s = str_eq s ""

abbrev pub longer : ℕ → String → Bool
longer n s = ltb n (length (units s))

-- `[...].includes(s)`
unfoldable pub one_of : List String → String → Bool
unfolding any
one_of options s = any (λ o. str_eq s o) options

-- `new Set(xs).size !== xs.length`
unfoldable pub repeats : List String → Bool
unfolding one_of
repeats [] = false
repeats (x ∷ xs) = one_of xs x || repeats xs

unfoldable pub check_conclusions : List String
check_conclusions =
    "SUCCESS" ∷ "FAILURE" ∷ "PENDING" ∷ "CANCELLED" ∷ "SKIPPED" ∷ "TIMED_OUT" ∷ "ACTION_REQUIRED"
    ∷ "NEUTRAL" ∷ "STALE" ∷ []

abbrev pub is_safe_positive : ℕ → Bool
is_safe_positive n = ltb 0 n && ltb n (2 ^ 53)

-- A path that is absolute, has a backslash or climbs.
unfoldable pub is_unsafe_path : String → Bool
unfolding has_prefix split_on lacks one_of
is_unsafe_path p = has_prefix (47 ∷ []) (units p) || not (lacks 92 p) || one_of (split_on 47 p) ".."

text_or_null : Option String → Json
text_or_null none = null
text_or_null (some s) = text s

text_items : List String → Items
text_items [] = nil
text_items (s ∷ ss) = cons (text s) (text_items ss)

check_items : List NamedCheckFact → Items
unfolding text_or_null
check_items [] = nil
check_items (c ∷ cs) =
    cons
      (obj (
        field "context" (text c.context) (
          field "conclusion" (text c.conclusion)
            (field "completedAt" (text_or_null c.completed_at) end))))
      (check_items cs)

-- `{ factsDigest, ...unsignedFacts }`: the facts without their digest.
unfoldable pub unsigned_facts : PullRequestFacts → Json
unfolding text_or_null text_items check_items
unsigned_facts f = obj (
    field "schemaVersion" (num (pos f.schema_version)) (
      field "provider" (text f.provider) (
        field "repositoryId" (text f.repository_id) (
          field "pullNumber" (num (pos f.pull_number)) (
            field "headSha" (text f.head_sha) (
              field "baseBranch" (text f.base_branch) (
                field "state" (text f.state) (
                  field "mergedAt" (text_or_null f.merged_at) (
                    field "changedPaths" (arr (text_items f.changed_paths)) (
                      field "namedChecks" (arr (check_items f.named_checks))
                        (field "observedAt" (text f.observed_at) end)))))))))))

unfoldable pub unsigned_binding : RepositoryBindingFacts → Json
unsigned_binding f = obj (
    field "schemaVersion" (num (pos f.schema_version)) (
      field "provider" (text f.provider) (
        field "repositoryId" (text f.repository_id) (
          field "fullName" (text f.full_name) (
            field "private" (bool f.is_private) (
              field "defaultBranch" (text f.default_branch)
                (field "observedAt" (text f.observed_at) end)))))))

-- White space is a test of the platform.
module _ (rt : Runtime) (parses : String → Bool) (is_space : ℕ → Bool) where
  -- `validTimestamp`; `parses` says whether `Date.parse` gives a number.
  unfoldable pub valid_timestamp : String → Bool
  unfolding lacks
  valid_timestamp s = not (lacks 84 s) && parses s

  -- `/^[^/\s]{1,100}\/[^/\s]{1,100}$/`
  unfoldable pub is_full_name : String → Bool
  unfolding split_on all units
  is_full_name s = elim (split_on 47 s) [
    | a ∷ b ∷ [] ↦
        all
          (λ p.
            leb 1 (length (units p))
            && leb (length (units p)) 100
            && all (λ c. not (is_space c)) (units p))
          (a ∷ b ∷ [])
    | _ ↦ false
  ]

  unfoldable pub is_valid_binding : RepositoryBindingFacts → Bool
  unfolding is_full_name valid_timestamp is_hex_text verification_facts_digest unsigned_binding
      one_of
  is_valid_binding f =
      (f.schema_version == 1)
      && one_of ("fixture" ∷ "github" ∷ []) f.provider
      && not (no_text f.repository_id)
      && not (longer 100 f.repository_id)
      && is_full_name f.full_name
      && not (no_text f.default_branch)
      && not (longer 255 f.default_branch)
      && valid_timestamp f.observed_at
      && is_hex_text 64 f.facts_digest
      && str_eq (verification_facts_digest rt (unsigned_binding f)) f.facts_digest

  -- `assertRepositoryBindingFacts`
  unfoldable pub assert_repository_binding_facts : RepositoryBindingFacts → Outcome (Unit {0})
  unfolding is_valid_binding
  assert_repository_binding_facts f = if is_valid_binding f then ok tt else err facts_invalid

  -- The lines of the condition of `assertPullRequestFacts`, each negated.
  unfoldable pub is_valid_path : String → Bool
  unfolding is_unsafe_path
  is_valid_path p = not (no_text p) && not (longer 500 p) && not (is_unsafe_path p)

  unfoldable pub is_valid_check : NamedCheckFact → Bool
  unfolding valid_timestamp one_of check_conclusions
  is_valid_check c =
      not (no_text c.context)
      && not (longer 200 c.context)
      && one_of check_conclusions c.conclusion
      && elim c.completed_at [ none ↦ true | some at ↦ valid_timestamp at ]

  unfoldable pub is_valid_merge : String → Option String → Bool
  unfolding valid_timestamp
  is_valid_merge state merged_at =
      if str_eq state "MERGED"
      then elim merged_at [ none ↦ false | some at ↦ valid_timestamp at ]
      else not (is_some merged_at)

  unfoldable pub is_valid_facts : PullRequestFacts → Bool
  unfolding is_valid_path is_valid_check is_valid_merge valid_timestamp is_hex_text
      verification_facts_digest unsigned_facts one_of repeats all
  is_valid_facts f =
      (f.schema_version == 1)
      && one_of ("fixture" ∷ "github" ∷ []) f.provider
      && not (no_text f.repository_id)
      && not (longer 100 f.repository_id)
      && is_safe_positive f.pull_number
      && is_hex_text 40 f.head_sha
      && not (no_text f.base_branch)
      && not (longer 255 f.base_branch)
      && one_of ("OPEN" ∷ "CLOSED" ∷ "MERGED" ∷ []) f.state
      && is_valid_merge f.state f.merged_at
      && valid_timestamp f.observed_at
      && leb (length f.changed_paths) 3000
      && all is_valid_path f.changed_paths
      && not (repeats f.changed_paths)
      && leb (length f.named_checks) 100
      && all is_valid_check f.named_checks
      && not (repeats (map (λ (c : NamedCheckFact). c.context) f.named_checks))
      && is_hex_text 64 f.facts_digest
      && str_eq (verification_facts_digest rt (unsigned_facts f)) f.facts_digest

  -- `assertPullRequestFacts`
  unfoldable pub assert_pull_request_facts : PullRequestFacts → Outcome (Unit {0})
  unfolding is_valid_facts
  assert_pull_request_facts f = if is_valid_facts f then ok tt else err facts_invalid

-- `validateRule`
unfoldable pub is_valid_rule : TaskEvidenceRule → Bool
unfolding is_id_units is_unsafe_path units
is_valid_rule (merged_pr id) = is_id_units (units id)
is_valid_rule (base_branch id branch) =
    is_id_units (units id) && not (no_text branch) && not (longer 255 branch)
is_valid_rule (changed_path id glob) =
    is_id_units (units id)
    && not (no_text glob)
    && not (longer 500 glob)
    && not (is_unsafe_path glob)
is_valid_rule (named_check id context) =
    is_id_units (units id) && not (no_text context) && not (longer 200 context)
is_valid_rule (other id) = false
