-- ===== src/Story/Signals.antt =====
-- What an accepted risk section states.
use praxis_bound.Declarations.{Declaration, declaration, entry, read_declaration_section}
use praxis_bound.StoryLiterals.{read_exact_value, read_structured_literal}
use praxis_bound.Verification.Vocabulary.{Level, low, medium, high}
use praxis_bound.Governance.Section.{read_section}
use praxis_bound.Story.Words.{split_declared_list}
use praxis_bound.Story.Risk.{
  high_risk_signals, contract_by_signal, RiskEntries, no_risk, reason_entry, declared_signal,
  declared_risk, level_of_risk, is_high, reason_missing, understated, RiskFacts, read_risk,
}
use praxis_bound.Common.{
  ℕ, ◌<◌, ◌≡◌, refl, ◌≢◌, inl, inr, false, Option, none, some, List, [], ◌∷◌, arith, if◌then◌else◌,
  Bool-cases, is_none, length, flat_map, length-append, append-eq-nil, All, All-append, Text, lit,
  text_eq, contains, each, each_clean, Distinct, Distinct-snoc, if_clean,
}

-- The signals of a clean walk are known and distinct, and every reason is counted.
record IsRead (s : RiskEntries) : Type 0 where
  distinct : Distinct s.signals
  known : All (λ signal. is_none (contract_by_signal signal) ≡ false) s.signals
  counted : s.reason_count ≡ length s.reasons

reason-IsRead :
    (s : RiskEntries) (o : Option Text)
    → IsRead s
    → (reason_entry s o).1 ≡ []
    → IsRead (reason_entry s o).0
unfolding reason_entry
reason-IsRead s none t h = absurd (cc)
reason-IsRead s (some reason) t h = record {
  distinct = t.distinct;
  known = t.known;
  counted = omega (arith, t.counted, length-append s.reasons (reason ∷ []));
}

signal-IsRead :
    (s : RiskEntries) (o : Option Text)
    → IsRead s
    → (declared_signal s o).1 ≡ []
    → IsRead (declared_signal s o).0
unfolding declared_signal
signal-IsRead s none t h = absurd (cc)
signal-IsRead s (some signal) t h = elim (Bool-cases (is_none (contract_by_signal signal))) [
  | inl e ↦ absurd (cc (rw e at h))
  | inr e ↦ elim (Bool-cases (contains s.signals signal)) [
    | inl f ↦ absurd (cc (rw (e, f) at h))
    | inr f ↦
        rw (e, f)
          (record {
            distinct = Distinct-snoc s.signals signal t.distinct f;
            known =
                All-append (λ v. is_none (contract_by_signal v) ≡ false) s.signals (signal ∷ [])
                  t.known (e, tt);
            counted = t.counted;
          })
  ]
]

risk-IsRead :
    (s : RiskEntries) (d : Declaration)
    → IsRead s
    → (declared_risk s d).1 ≡ []
    → IsRead (declared_risk s d).0
unfolding declared_risk
risk-IsRead s (entry text) t h = t
risk-IsRead s (declaration label value) t h = elim (Bool-cases (text_eq label (lit "Level"))) [
  | inl e ↦ rw e (record { distinct = t.distinct; known = t.known; counted = t.counted })
  | inr e ↦ elim (Bool-cases (text_eq label (lit "Reason"))) [
    | inl f ↦ rw (e, f) (reason-IsRead s (read_exact_value value) t (rw (e, f) at h))
    | inr f ↦ elim (Bool-cases (text_eq label (lit "Signal"))) [
      | inl g ↦ rw (e, f, g) (signal-IsRead s (read_structured_literal value) t (rw (e, f, g) at h))
      | inr g ↦ rw (e, f, g) t
    ]
  ]
]

understated_clean :
    (level : Level) (words : List Text)
    → understated level words ≡ []
    → All (λ word. contains high_risk_signals word ≡ false) words
unfolding understated
understated_clean level [] h = tt
understated_clean level (word ∷ words) h =
    let (now, later) = append-eq-nil _ _ h in
    (if_clean (contains high_risk_signals word) _ now, understated_clean level words later)

-- The level of an accepted risk section is not below what its reasons say.
pub record IsStated (risk : RiskFacts) : Type 0 where
  pub not_understated :
      risk.level ≢ high
      → All
          (λ word. contains high_risk_signals word ≡ false)
          (flat_map split_declared_list risk.reasons)
  pub reasoned : risk.level ≢ low → 0 < length risk.reasons
  pub distinct : Distinct risk.signals
  pub known : All (λ signal. is_none (contract_by_signal signal) ≡ false) risk.signals

reason_clean : (level : Level) (n : ℕ) → reason_missing level n ≡ [] → level ≢ low → 0 < n
unfolding reason_missing
reason_clean low n h l = absurd (l refl)
reason_clean medium n h l = ground arith
reason_clean high n h l = ground arith

words_clean :
    (level : Level) (words : List Text)
    → (if is_high level then [] else understated level words) ≡ []
    → level ≢ high
    → All (λ word. contains high_risk_signals word ≡ false) words
words_clean low words h l = understated_clean low words h
words_clean medium words h l = understated_clean medium words h
words_clean high words h l = absurd (l refl)

no_risk-IsRead : IsRead no_risk
no_risk-IsRead = record { distinct = tt; known = tt; counted = refl }

-- If the contract accepts the Risk section, its reasons name a high-risk signal only at the high
-- level, a level above low has a reason, and its signals are known and distinct.
pub read_risk-IsStated : (source : Text) → (read_risk source).1 ≡ [] → IsStated (read_risk source).0
unfolding read_risk read_section
read_risk-IsStated source h =
    let entries = (read_declaration_section source (lit "## Risk")).1 in
    let risk = (each declared_risk no_risk entries).0 in
    let level = (level_of_risk risk.declared).0 in
    let (section, rest) = append-eq-nil _ _ h in
    let (missing, words) =
      append-eq-nil (reason_missing level risk.reason_count) _ (append-eq-nil _ _ rest).1 in
    let t =
      each_clean declared_risk IsRead risk-IsRead no_risk entries no_risk-IsRead
        (append-eq-nil _ _ section).0 in
    record {
      not_understated = words_clean level (flat_map split_declared_list risk.reasons) words;
      reasoned = λ l. omega (arith, t.counted, reason_clean level risk.reason_count missing l);
      distinct = t.distinct;
      known = t.known;
    }
