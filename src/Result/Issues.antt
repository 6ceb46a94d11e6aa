-- ===== src/Result/Issues.antt =====
-- The issues and the error of a validated value.
use praxis_bound.Result.Value.{
  Value, undefined, null, opaque, boolean, natural, other_number, string, array, object, Values,
  Members, property, entries, has_own,
}
use praxis_bound.Result.Grammar.{matches_issue_code, is_line_break}
use praxis_bound.Result.Validate.{
  first_failure, issue_failure, issues_failures, issues_failure, error_failure, issue_fields,
  error_fields,
}
use praxis_bound.Result.Forms.{first_none, require_lem, code_lem, message_lem}
use praxis_bound.Result.Known.{HasOnly, known_lem}
use praxis_bound.Result.Json.{
  IsOptional, IsPathValue, IsSubjectValue, optional_path, optional_subject,
}
use praxis_bound.Common.{
  ℕ, ◌+◌, ◌≡◌, refl, ◌≢◌, inl, inr, true, false, none, List, [], ◌∷◌, if◌then◌else◌, Bool-cases,
  any, Text, lit, Issue,
}

-- The object of an issue: no unknown field, a code of the pattern, a message of one line, and, if they
-- are there, a repository path and a subject.
pub IsIssue : Value → Issue → Type 0
IsIssue value i =
    (members : Members) × (value ≡ object members)
    × (property members (lit "code") ≡ string i.code)
    × (property members (lit "message") ≡ string i.message)
    × (matches_issue_code i.code ≡ true)
    × (i.message ≢ [])
    × (any is_line_break i.message ≡ false)
    × HasOnly members issue_fields
    × IsOptional members (lit "path") IsPathValue
    × IsOptional members (lit "subject") IsSubjectValue

issue_lem :
    (name : Text) (value : Value) → issue_failure name value ≡ none → (i : Issue) × IsIssue value i
unfolding issue_failure IsIssue
issue_lem name (object members) h =
    let (known, h1) = first_none _ _ h in
    let (code, h2) = first_none _ _ h1 in
    let (message, h3) = first_none _ _ h2 in
    let (path, h4) = first_none _ _ h3 in
    let (subject, h5) = first_none _ _ h4 in
    let (c, ec, pc) = code_lem (property members (lit "code")) (require_lem _ _ _ code) in
    let (m, em, filled, one_line) =
      message_lem (property members (lit "message")) (require_lem _ _ _ message) in
    (
      record { code = c; message = m },
      (
        members,
        refl,
        ec,
        em,
        pc,
        filled,
        one_line,
        known_lem _ members issue_fields known,
        optional_path members _ _ path,
        optional_subject members _ _ subject,
      ),
    )
issue_lem name undefined h = absurd (cc)
issue_lem name null h = absurd (cc)
issue_lem name opaque h = absurd (cc)
issue_lem name (boolean b) h = absurd (cc)
issue_lem name (natural n) h = absurd (cc)
issue_lem name (other_number finite) h = absurd (cc)
issue_lem name (array list) h = absurd (cc)
issue_lem name (string s) h = absurd (cc)

-- The entries of an array, as issues.
pub AreIssues : List Value → List Issue → Type 0
AreIssues [] [] = Unit
AreIssues (value ∷ rest) (i ∷ issues) = IsIssue value i × AreIssues rest issues
AreIssues _ _ = ⊥

issues_lem :
    (index : ℕ) (list : List Value)
    → first_failure (issues_failures index list) ≡ none
    → (issues : List Issue) × AreIssues list issues
unfolding issues_failures AreIssues
issues_lem index [] h = ([], tt)
issues_lem index (value ∷ list) h =
    let (now, later) = first_none _ _ h in
    let (i, at) = issue_lem _ value now in
    let (issues, rest) = issues_lem (index + 1) list later in (i ∷ issues, (at, rest))

pub array_lem :
    (value : Value)
    → issues_failure value ≡ none
    → (list : Values) × (issues : List Issue) × (value ≡ array list)
      × AreIssues (entries list) issues
unfolding issues_failure
array_lem (array list) h =
    let (issues, at) = issues_lem 0 (entries list) h in (list, issues, refl, at)
array_lem undefined h = absurd (cc)
array_lem null h = absurd (cc)
array_lem opaque h = absurd (cc)
array_lem (boolean b) h = absurd (cc)
array_lem (natural n) h = absurd (cc)
array_lem (other_number finite) h = absurd (cc)
array_lem (string s) h = absurd (cc)
array_lem (object members) h = absurd (cc)

-- The value of an error: an object without an unknown field, with a code of the pattern and a message
-- of one line.
pub record IsError (value : Value) : Type 0 where
  pub members : Members
  pub code : Text
  pub message : Text
  pub is_object : value ≡ object members
  pub known : HasOnly members error_fields
  pub has_code : property members (lit "code") ≡ string code
  pub code_form : matches_issue_code code ≡ true
  pub has_message : property members (lit "message") ≡ string message
  pub filled : message ≢ []
  pub one_line : any is_line_break message ≡ false

error_lem : (value : Value) → error_failure value ≡ none → IsError value
unfolding error_failure
error_lem (object members) h =
    let (known, h1) = first_none _ _ h in
    let (code, h2) = first_none _ _ h1 in
    let (message, h3) = first_none _ _ h2 in
    let (c, ec, pc) = code_lem (property members (lit "code")) (require_lem _ _ _ code) in
    let (m, em, filled, one_line) =
      message_lem (property members (lit "message")) (require_lem _ _ _ message) in
    record {
      members = members;
      code = c;
      message = m;
      is_object = refl;
      known = known_lem _ members error_fields known;
      has_code = ec;
      code_form = pc;
      has_message = em;
      filled = filled;
      one_line = one_line;
    }
error_lem undefined h = absurd (cc)
error_lem null h = absurd (cc)
error_lem opaque h = absurd (cc)
error_lem (boolean b) h = absurd (cc)
error_lem (natural n) h = absurd (cc)
error_lem (other_number finite) h = absurd (cc)
error_lem (array list) h = absurd (cc)
error_lem (string s) h = absurd (cc)

pub optional-IsError :
    (members : Members)
    → (if has_own members (lit "error")
        then error_failure (property members (lit "error"))
        else none)
      ≡ none
    → IsOptional members (lit "error") IsError
optional-IsError members h = elim (Bool-cases (has_own members (lit "error"))) [
  | inr e ↦ inl e
  | inl e ↦ inr (error_lem _ (rw e at h))
]
