-- ===== src/Handoff/Steps.antt =====
-- One round of the loop of `evaluateHandoff` on each line of a written evidence block.
use praxis_bound.Handoff.Scalars.{embedded_line_break, starts_with_space}
use praxis_bound.Handoff.Fields.{
  Field, story, recorded_at, repository, revision, command, result, field_of, field_name,
}
use praxis_bound.Handoff.Lines.{Block, set_at, evidence_line, trim_end, block_line}
use praxis_bound.Common.{
  ℕ, ◌+◌, ◌≡◌, refl, ◌≢◌, true, false, ◌||◌, some, List, [], ◌∷◌, ◌++◌, any-append, Text, lit,
  text_eq, Issue, each, Lacks, texts,
}

-- A value that stands on one line and that the line reader gives back: not empty, no line break, no
-- white space at either end.
pub record OneLine (v : Text) : Type 0 where
  pub lacks_newline : Lacks 10 v
  pub unbroken : embedded_line_break v ≡ false
  pub no_space_behind : trim_end v ≡ v
  pub no_space_before : starts_with_space v ≡ false
  pub filled : v ≢ []

-- the line of a field
unfoldable pub key_text : Field → Text
unfolding lit
key_text story = lit "  story: "
key_text recorded_at = lit "  recorded_at: "
key_text repository = lit "  repository: "
key_text revision = lit "  revision: "
key_text command = lit "  command: "
key_text result = lit "  result: "

abbrev pub section_of : Field → Text
section_of command = lit "verification"
section_of result = lit "verification"
section_of _ = lit "handoff"

-- the state behind the line of a field
abbrev pub recorded : Block → Field → Text → Block
recorded s f v = record s {
  counts = set_at s.counts f (s.counts f + 1);
  values = set_at s.values f (some v);
}

append_filled : (p v : Text) → v ≢ [] → (c : ℕ) × (s : Text) × (p ++ v ≡ c ∷ s)
append_filled [] [] h = absurd (h refl)
append_filled [] (c ∷ v) h = (c, v, refl)
append_filled (c ∷ p) v h = (c, p ++ v, refl)

trim_end-append : (p v : Text) → trim_end v ≡ v → v ≢ [] → trim_end (p ++ v) ≡ p ++ v
unfolding trim_end
trim_end-append [] v e h = e
trim_end-append (c ∷ p) v e h =
    let (d, s, f) = append_filled p v h in rw (trim_end-append p v e h, f) refl

embedded_line_break-append :
    (p v : Text) → embedded_line_break (p ++ v) ≡ (embedded_line_break p || embedded_line_break v)
unfolding embedded_line_break
embedded_line_break-append p v = any-append _ p v

key_text-unbroken : (f : Field) → embedded_line_break (key_text f) ≡ false
unfolding embedded_line_break key_text texts
key_text-unbroken story = refl
key_text-unbroken recorded_at = refl
key_text-unbroken repository = refl
key_text-unbroken revision = refl
key_text-unbroken command = refl
key_text-unbroken result = refl

evidence_line_lem :
    (s : Block) (f : Field) (v : Text)
    → s.section ≡ section_of f
    → OneLine v
    → evidence_line s (key_text f ++ v) ≡ (recorded s f v, [])
unfolding evidence_line key_text field_of field_name texts
evidence_line_lem s story v e o = rw (e, o.unbroken, o.no_space_before) refl
evidence_line_lem s recorded_at v e o = rw (e, o.unbroken, o.no_space_before) refl
evidence_line_lem s repository v e o = rw (e, o.unbroken, o.no_space_before) refl
evidence_line_lem s revision v e o = rw (e, o.unbroken, o.no_space_before) refl
evidence_line_lem s command v e o = rw (e, o.unbroken, o.no_space_before) refl
evidence_line_lem s result v e o = rw (e, o.unbroken, o.no_space_before) refl

key_text-closes : (f : Field) (v : Text) → text_eq (key_text f ++ v) (lit "```") ≡ false
unfolding key_text texts
key_text-closes story v = refl
key_text-closes recorded_at v = refl
key_text-closes repository v = refl
key_text-closes revision v = refl
key_text-closes command v = refl
key_text-closes result v = refl

-- a field's line inside its section records its value, and pushes nothing
pub block_line-key_text :
    (s : Block) (f : Field) (v : Text)
    → s.in_block ≡ true
    → s.section ≡ section_of f
    → OneLine v
    → block_line s (key_text f ++ v) ≡ (recorded s f v, [])
unfolding block_line
block_line-key_text s f v i e o =
    rw
      (
        trim_end-append (key_text f) v o.no_space_behind o.filled,
        embedded_line_break-append (key_text f) v,
        key_text-unbroken f,
        o.unbroken,
        i,
        key_text-closes f v,
      )
      (let l = evidence_line_lem s f v e o in rw i at l)

-- a round that pushes nothing
pub each_step {ℓ κ} :
    {S : Type ℓ} {A : Type κ} (step : S → A → S × List Issue) (s s' : S) (x : A) (xs : List A)
    → step s x ≡ (s', [])
    → each step s (x ∷ xs) ≡ each step s' xs
unfolding each
each_step step s s' x xs e = rw e refl
