-- ===== src/VerificationResult/Granted.antt =====
-- Which operations a record uses, and which of them are granted.
use praxis_bound.Declarations.{read_section_bullets}
use praxis_bound.Verification.Vocabulary.{Plan, Operation, operation_of, grants}
use praxis_bound.VerificationResult.Record.{
  Used, nothing_used, used_operation, used_bullet, read_authority_used,
}
use praxis_bound.Common.{
  ◌≡◌, refl, inl, Bool, true, false, not, ◌||◌, Option, none, some, [], ◌∷◌, ◌++◌, arith, or_false,
  All, All-append, Text, lit, each_inv, In, In-append_left, In-append_right,
}

-- Unless the walk fails, every operation used is granted; when it fails, one is not.
pub record AreGranted (plan : Plan) (s : Used) : Type 0 where
  pub granted : s.failed ≡ false → All (λ operation. grants plan.authority operation ≡ true) s.used
  pub refused :
      s.failed ≡ true
      → (operation : Operation) × In operation s.used × (grants plan.authority operation ≡ false)

granted_step :
    (plan : Plan) (s : Used) (operation : Operation) (b : Bool)
    → grants plan.authority operation ≡ b
    → AreGranted plan s
    → AreGranted plan (record { used = s.used ++ operation ∷ []; failed = s.failed || not b })
granted_step plan s operation true g t = record {
  granted = λ f.
      All-append (λ o. grants plan.authority o ≡ true) s.used (operation ∷ [])
        (t.granted (or_false s.failed false f).0) (g, tt);
  refused = λ f.
      let (o, i, n) = t.refused (ground arith) in
      (o, In-append_left o s.used (operation ∷ []) i, n);
}
granted_step plan s operation false g t = record {
  granted = λ f. absurd (ground (arith, or_false s.failed true f));
  refused = λ f. (operation, In-append_right operation s.used (operation ∷ []) (inl refl), g);
}

used-AreGranted :
    (plan : Plan) (s : Used) (bullet : Text) (o : Option Operation)
    → AreGranted plan s
    → AreGranted plan (used_operation plan s bullet o).0
unfolding used_operation
used-AreGranted plan s bullet none t = t
used-AreGranted plan s bullet (some operation) t =
    granted_step plan s operation (grants plan.authority operation) refl t

pub read_authority_used-AreGranted :
    (source : Text) (plan : Plan) → AreGranted plan (read_authority_used source plan).0
unfolding read_authority_used used_bullet
read_authority_used-AreGranted source plan =
    each_inv (used_bullet plan) (AreGranted plan)
      (λ s bullet t. used-AreGranted plan s bullet (operation_of bullet) t) nothing_used
      (read_section_bullets source (lit "## Authority Used")).bullets
      (record { granted = λ f. tt; refused = λ f. absurd (cc) })
