-- ===== src/VerificationResult/Required.antt =====
-- The loops over the required checks and the criteria, when they push nothing.
use praxis_bound.Verification.Vocabulary.{Layer}
use praxis_bound.VerificationResult.Vocabulary.{
  CheckStatus, RecordStatus, RecordedCheck, passed_check,
}
use praxis_bound.VerificationResult.Evaluate.{
  status_of, required_status, required_layer, acceptance_proof, record_status,
}
use praxis_bound.Common.{
  ℕ, ◌+◌, ◌≡◌, refl, ap, inl, inr, Bool, true, false, Option, none, some, List, [], ◌∷◌, arith, ltb,
  Bool-cases, length, append-eq-nil, All, Text, contains, each,
}

status_counts :
    (n : ℕ) (layer : Layer) (o : Option CheckStatus)
    → (required_status n layer o).0 ≡ n + length (required_status n layer o).1
unfolding required_status
status_counts n layer none = omega arith
status_counts n layer (some status) = ground arith

pub layer_counts :
    (checks : List RecordedCheck) (n : ℕ) (layer : Layer)
    → (required_layer checks n layer).0 ≡ n + length (required_layer checks n layer).1
unfolding required_layer
layer_counts checks n layer = status_counts n layer (status_of checks layer)

pub proof_counts :
    (passed : List Text) (n : ℕ) (id : Text)
    → (acceptance_proof passed n id).0 ≡ n + length (acceptance_proof passed n id).1
unfolding acceptance_proof
proof_counts passed n id = ground arith

pub length_zero : {A : Type 0} (xs : List A) → length xs ≡ 0 → xs ≡ []
length_zero [] h = refl
length_zero (x ∷ xs) h = absurd (omega (arith, h))

passed_status : (status : CheckStatus) → passed_check status ≡ true → status ≡ CheckStatus.pass
passed_status CheckStatus.pass h = refl
passed_status CheckStatus.fail h = cc
passed_status CheckStatus.skipped h = cc
passed_status CheckStatus.blocked h = cc
passed_status CheckStatus.unsupported h = cc

status_clean :
    (n : ℕ) (layer : Layer) (o : Option CheckStatus)
    → (required_status n layer o).1 ≡ []
    → o ≡ some CheckStatus.pass
unfolding required_status
status_clean n layer none h = absurd (cc)
status_clean n layer (some status) h = ap some (
    passed_status status
      (elim (Bool-cases (passed_check status)) [ inl e ↦ e | inr e ↦ absurd (cc (rw e at h)) ]))

pub required_clean :
    (checks : List RecordedCheck) (n : ℕ) (layers : List Layer)
    → (each (required_layer checks) n layers).1 ≡ []
    → All (λ layer. status_of checks layer ≡ some CheckStatus.pass) layers
unfolding each required_layer
required_clean checks n [] h = tt
required_clean checks n (layer ∷ layers) h =
    let (now, later) = append-eq-nil (required_layer checks n layer).1 _ h in
    (
      status_clean n layer (status_of checks layer) now,
      required_clean checks (required_layer checks n layer).0 layers later,
    )

pub proofs_clean :
    (passed : List Text) (n : ℕ) (ids : List Text)
    → (each (acceptance_proof passed) n ids).1 ≡ []
    → All (λ id. contains passed id ≡ true) ids
unfolding each acceptance_proof
proofs_clean passed n [] h = tt
proofs_clean passed n (id ∷ ids) h =
    let (now, later) = append-eq-nil (acceptance_proof passed n id).1 _ h in
    (
      elim (Bool-cases (contains passed id)) [ inl e ↦ e | inr e ↦ absurd (cc (rw e at now)) ],
      proofs_clean passed (acceptance_proof passed n id).0 ids later,
    )

pub pass_lem :
    (failed : Bool) (n : ℕ)
    → record_status failed n ≡ RecordStatus.pass
    → (failed ≡ false) × (n ≡ 0)
unfolding record_status
pass_lem true n h = absurd (cc)
pass_lem false n h =
    (refl, elim (Bool-cases (ltb 0 n)) [ inl e ↦ absurd (cc (rw e at h)) | inr e ↦ ground arith ])
