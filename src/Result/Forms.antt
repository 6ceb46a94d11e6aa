-- ===== src/Result/Forms.antt =====
-- What the tests of `validateResultEnvelope` say of a single value.
use praxis_bound.Protocol.{is_strict_numeric_sem_ver}
use praxis_bound.Result.Value.{
  Value, undefined, null, opaque, boolean, natural, other_number, string, array, object,
}
use praxis_bound.Result.Grammar.{
  matches_subject, matches_issue_code, is_line_break, is_path_text, is_subject, is_path, is_code,
  is_message,
}
use praxis_bound.Result.Validate.{
  Failure, require, first_failure, version_failure, is_among, is_exit,
}
use praxis_bound.Common.{
  ℕ, ◌≤◌, ◌≡◌, refl, ap, ◌≢◌, inl, inr, Bool, true, false, not, Option, none, some, List, [], ◌∷◌,
  arith, ◌==◌, Bool-cases, and_true, not-true, length, any, Text, text_eq_sound,
}

pub first_none :
    (test : Option Failure) (tests : List (Option Failure))
    → first_failure (test ∷ tests) ≡ none
    → (test ≡ none) × (first_failure tests ≡ none)
unfolding first_failure
first_none none tests h = (refl, h)
first_none (some failure) tests h = absurd (cc)

pub require_lem : (b : Bool) (code field : Text) → require b code field ≡ none → b ≡ true
require_lem true code field h = refl
require_lem false code field h = cc

pub version_lem :
    (value : Value) (expected code field : Text)
    → version_failure value expected code field ≡ none
    → value ≡ string expected
unfolding version_failure
version_lem undefined expected code field h = absurd (cc)
version_lem null expected code field h = absurd (cc)
version_lem opaque expected code field h = absurd (cc)
version_lem (boolean b) expected code field h = absurd (cc)
version_lem (natural n) expected code field h = absurd (cc)
version_lem (other_number finite) expected code field h = absurd (cc)
version_lem (array list) expected code field h = absurd (cc)
version_lem (object members) expected code field h = absurd (cc)
version_lem (string version) expected code field h =
    elim (Bool-cases (is_strict_numeric_sem_ver version)) [
      | inr e ↦ absurd (cc (rw e at h))
      | inl e ↦ ap string (text_eq_sound version expected (require_lem _ _ _ (rw e at h)))
    ]

pub among_lem :
    (known : List Text) (value : Value)
    → is_among known value ≡ true
    → (s : Text) × (value ≡ string s)
unfolding is_among
among_lem known (string s) h = (s, refl)
among_lem known undefined h = absurd (cc)
among_lem known null h = absurd (cc)
among_lem known opaque h = absurd (cc)
among_lem known (boolean b) h = absurd (cc)
among_lem known (natural n) h = absurd (cc)
among_lem known (other_number finite) h = absurd (cc)
among_lem known (array list) h = absurd (cc)
among_lem known (object members) h = absurd (cc)

pub exit_lem : (value : Value) → is_exit value ≡ true → (n : ℕ) × (value ≡ natural n) × (n ≤ 3)
unfolding is_exit
exit_lem (natural n) h = (n, refl, ground arith)
exit_lem (string s) h = absurd (cc)
exit_lem undefined h = absurd (cc)
exit_lem null h = absurd (cc)
exit_lem opaque h = absurd (cc)
exit_lem (boolean b) h = absurd (cc)
exit_lem (other_number finite) h = absurd (cc)
exit_lem (array list) h = absurd (cc)
exit_lem (object members) h = absurd (cc)

pub subject_lem :
    (value : Value)
    → is_subject value ≡ true
    → (s : Text) × (value ≡ string s) × (matches_subject s ≡ true)
unfolding is_subject
subject_lem (string s) h = (s, refl, h)
subject_lem undefined h = absurd (cc)
subject_lem null h = absurd (cc)
subject_lem opaque h = absurd (cc)
subject_lem (boolean b) h = absurd (cc)
subject_lem (natural n) h = absurd (cc)
subject_lem (other_number finite) h = absurd (cc)
subject_lem (array list) h = absurd (cc)
subject_lem (object members) h = absurd (cc)

pub code_lem :
    (value : Value)
    → is_code value ≡ true
    → (s : Text) × (value ≡ string s) × (matches_issue_code s ≡ true)
unfolding is_code
code_lem (string s) h = (s, refl, h)
code_lem undefined h = absurd (cc)
code_lem null h = absurd (cc)
code_lem opaque h = absurd (cc)
code_lem (boolean b) h = absurd (cc)
code_lem (natural n) h = absurd (cc)
code_lem (other_number finite) h = absurd (cc)
code_lem (array list) h = absurd (cc)
code_lem (object members) h = absurd (cc)

pub path_lem :
    (value : Value)
    → is_path value ≡ true
    → (s : Text) × (value ≡ string s) × (is_path_text s ≡ true)
unfolding is_path
path_lem (string s) h = (s, refl, h)
path_lem undefined h = absurd (cc)
path_lem null h = absurd (cc)
path_lem opaque h = absurd (cc)
path_lem (boolean b) h = absurd (cc)
path_lem (natural n) h = absurd (cc)
path_lem (other_number finite) h = absurd (cc)
path_lem (array list) h = absurd (cc)
path_lem (object members) h = absurd (cc)

pub message_lem :
    (value : Value)
    → is_message value ≡ true
    → (s : Text) × (value ≡ string s) × (s ≢ []) × (any is_line_break s ≡ false)
unfolding is_message
message_lem (string s) h =
    let (some_unit, one_line) = and_true (not (length s == 0)) _ h in
    (s, refl, (λ e. absurd (cc (rw e at some_unit))), not-true _ one_line)
message_lem undefined h = absurd (cc)
message_lem null h = absurd (cc)
message_lem opaque h = absurd (cc)
message_lem (boolean b) h = absurd (cc)
message_lem (natural n) h = absurd (cc)
message_lem (other_number finite) h = absurd (cc)
message_lem (array list) h = absurd (cc)
message_lem (object members) h = absurd (cc)
