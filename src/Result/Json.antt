-- ===== src/Result/Json.antt =====
-- The values that JSON can write, and the optional fields of an object.
use praxis_bound.Result.Value.{
  Value, undefined, null, opaque, boolean, natural, other_number, string, array, object, Values,
  nothing, value_then, Members, bare, member, property, has_own,
}
use praxis_bound.Result.Grammar.{
  matches_subject, is_path_text, is_subject, is_path, is_data_value, are_data_values,
  are_data_members,
}
use praxis_bound.Result.Validate.{require}
use praxis_bound.Result.Forms.{require_lem, subject_lem, path_lem}
use praxis_bound.Common.{
  ◌≡◌, ◌⊎◌, inl, inr, Bool, true, false, not, ◌||◌, none, Bool-cases, and_true, Text, lit,
}

-- Neither undefined, nor opaque, nor an infinite number, and neither is any part of it.
mutual
  pub IsJson : Value → Type 0
  IsJson undefined = ⊥
  IsJson opaque = ⊥
  IsJson null = Unit
  IsJson (boolean b) = Unit
  IsJson (natural n) = Unit
  IsJson (other_number finite) = finite ≡ true
  IsJson (string s) = Unit
  IsJson (array list) = AreJson list
  IsJson (object members) = HaveJson members

  pub AreJson : Values → Type 0
  AreJson nothing = Unit
  AreJson (value_then value rest) = IsJson value × AreJson rest

  pub HaveJson : Members → Type 0
  HaveJson bare = Unit
  HaveJson (member name value rest) = IsJson value × HaveJson rest

mutual
  unfolding is_data_value IsJson

  data_lem : (value : Value) → is_data_value value ≡ true → IsJson value
  data_lem undefined h = absurd (cc)
  data_lem opaque h = absurd (cc)
  data_lem null h = tt
  data_lem (boolean b) h = tt
  data_lem (natural n) h = tt
  data_lem (other_number finite) h = h
  data_lem (string s) h = tt
  data_lem (array list) h = list_lem list h
  data_lem (object members) h = members_lem members h

  list_lem : (list : Values) → are_data_values list ≡ true → AreJson list
  list_lem nothing h = tt
  list_lem (value_then value rest) h =
      let (here, later) = and_true (is_data_value value) _ h in
      (data_lem value here, list_lem rest later)

  members_lem : (members : Members) → are_data_members members ≡ true → HaveJson members
  members_lem bare h = tt
  members_lem (member name value rest) h =
      let (here, later) = and_true (is_data_value value) _ h in
      (data_lem value here, members_lem rest later)

-- The field is absent, or its value has the form.
abbrev pub IsOptional : Members → Text → (Value → Type 0) → Type 0
IsOptional members name Form = (has_own members name ≡ false) ⊎ Form (property members name)

-- a string with the form of a repository path, or of a subject
abbrev pub IsPathValue : Value → Type 0
IsPathValue value = (s : Text) × (value ≡ string s) × (is_path_text s ≡ true)

abbrev pub IsSubjectValue : Value → Type 0
IsSubjectValue value = (s : Text) × (value ≡ string s) × (matches_subject s ≡ true)

optional_lem :
    (members : Members) (name : Text) (test : Value → Bool) (Form : Value → Type 0)
    → ((value : Value) → test value ≡ true → Form value)
    → (code field : Text)
    → require (not (has_own members name) || test (property members name)) code field ≡ none
    → IsOptional members name Form
optional_lem members name test Form means code field h = elim (Bool-cases (has_own members name)) [
  | inr e ↦ inl e
  | inl e ↦ inr (means _ (require_lem (test (property members name)) code field (rw e at h)))
]

pub optional_path :
    (members : Members) (code field : Text)
    → require
        (not (has_own members (lit "path")) || is_path (property members (lit "path")))
        code
        field
      ≡ none
    → IsOptional members (lit "path") IsPathValue
optional_path members code field h =
    optional_lem members (lit "path") is_path IsPathValue path_lem code field h

pub optional_subject :
    (members : Members) (code field : Text)
    → require
        (not (has_own members (lit "subject")) || is_subject (property members (lit "subject")))
        code
        field
      ≡ none
    → IsOptional members (lit "subject") IsSubjectValue
optional_subject members code field h =
    optional_lem members (lit "subject") is_subject IsSubjectValue subject_lem code field h

pub optional_data :
    (members : Members) (code field : Text)
    → require
        (not (has_own members (lit "data")) || is_data_value (property members (lit "data")))
        code
        field
      ≡ none
    → IsOptional members (lit "data") IsJson
optional_data members code field h =
    optional_lem members (lit "data") is_data_value IsJson data_lem code field h
