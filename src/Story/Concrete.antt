-- ===== src/Story/Concrete.antt =====
-- The fields of a risk contract whose readiness checks report nothing.
use mathlib.Core.Path.{subst}
use praxis_bound.Declarations.{Declaration}
use praxis_bound.StoryLiterals.{read_structured_literal}
use praxis_bound.Verification.Section.{values_of}
use praxis_bound.StoryReadiness.Check.{StoryReadinessFacts}
use praxis_bound.StoryReadiness.RiskEvidence.{
  risk_placeholders, check_risk_contract_field_readiness,
}
use praxis_bound.Story.Risk.{RiskContract, risk_contracts, contract_among}
use praxis_bound.Story.RiskContracts.{field_literal, contract_field}
use praxis_bound.Common.{
  ◌≡◌, refl, sym, ◌∙◌, inl, inr, true, false, Option, none, some, List, [], ◌∷◌, Bool-cases,
  some_injective, or_else, flat_map, append-eq-nil, All, Text, lit, text_eq, text_eq_sound,
  contains, texts,
}

-- The one value of a field is a literal that is no placeholder.
abbrev pub IsConcrete : List Declaration → Text → Type 0
IsConcrete entries field =
    (value literal : Text) × (values_of field entries ≡ value ∷ [])
    × (read_structured_literal value ≡ some literal)
    × (contains risk_placeholders literal ≡ false)

-- every contract has the field
pub evidence_field :
    (contracts : List RiskContract) (signal : Text) (contract : RiskContract)
    → All (λ c. contains c.contract_fields (lit "Evidence AC") ≡ true) contracts
    → contract_among contracts signal ≡ some contract
    → contains contract.contract_fields (lit "Evidence AC") ≡ true
unfolding contract_among
evidence_field [] signal contract a h = absurd (cc)
evidence_field (c ∷ contracts) signal contract a h = elim (Bool-cases (text_eq c.signal signal)) [
  | inl e ↦
      subst (λ (d : RiskContract). contains d.contract_fields (lit "Evidence AC") ≡ true)
        (some_injective c contract (rw e at h)) a.0
  | inr e ↦ evidence_field contracts signal contract a.1 (rw e at h)
]

pub have_evidence : All (λ c. contains c.contract_fields (lit "Evidence AC") ≡ true) risk_contracts
unfolding risk_contracts texts
have_evidence = (refl, (refl, (refl, (refl, tt))))

pub All_known :
    (P : Text → Type 0) (xs : List Text) (t : Text) → All P xs → contains xs t ≡ true → P t
unfolding contains
All_known P [] t a h = absurd (cc)
All_known P (x ∷ xs) t a h = elim (Bool-cases (text_eq x t)) [
  | inl e ↦ subst P (text_eq_sound x t e) a.0
  | inr e ↦ All_known P xs t a.1 (rw e at h)
]

literal_concrete :
    (contract : RiskContract) (facts : StoryReadinessFacts) (field : Text) (o : Option Text)
    → field_literal contract (some facts) field o ≡ []
    → (literal : Text) × (o ≡ some literal) × (contains risk_placeholders literal ≡ false)
unfolding field_literal check_risk_contract_field_readiness
literal_concrete contract facts field none h = absurd (cc)
literal_concrete contract facts field (some literal) h =
    elim (Bool-cases (contains risk_placeholders literal)) [
      | inr e ↦ (literal, refl, e)
      | inl e ↦ absurd (cc (rw e at h))
    ]

field_concrete :
    (contract : RiskContract) (facts : StoryReadinessFacts) (field : Text) (values : List Text)
    → contract_field contract (some facts) field values ≡ []
    → (value literal : Text) × (values ≡ value ∷ [])
      × (read_structured_literal value ≡ some literal)
      × (contains risk_placeholders literal ≡ false)
unfolding contract_field
field_concrete contract facts field [] h = absurd (cc)
field_concrete contract facts field (value ∷ []) h =
    let (literal, e, p) = literal_concrete contract facts field (read_structured_literal value) h in
    (value, literal, refl, e, p)
field_concrete contract facts field (a ∷ (b ∷ values)) h = absurd (cc)

pub fields-IsConcrete :
    (contract : RiskContract) (facts : StoryReadinessFacts) (entries : List Declaration)
    (declared : Text → Option (List Text)) (fields : List Text)
    → ((name : Text) → or_else (declared name) [] ≡ values_of name entries)
    → flat_map
        (λ field. contract_field contract (some facts) field (or_else (declared field) []))
        fields
      ≡ []
    → All (IsConcrete entries) fields
unfolding flat_map
fields-IsConcrete contract facts entries declared [] same h = tt
fields-IsConcrete contract facts entries declared (field ∷ fields) same h =
    let (now, later) =
      append-eq-nil (contract_field contract (some facts) field (or_else (declared field) [])) _
        h in
    let (value, literal, e, l, p) =
      field_concrete contract facts field (or_else (declared field) []) now in
    (
      (value, literal, sym (same field) ∙ e, l, p),
      fields-IsConcrete contract facts entries declared fields same later,
    )
