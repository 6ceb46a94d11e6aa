-- ===== src/Protocol/Selected.antt =====
-- Exactly which selectors select a protocol version.
use mathlib.Core.Path.{subst}
use praxis_bound.Result.{implemented_protocol_version}
use praxis_bound.Protocol.{
  JsValue, js_undefined, js_null, other, string, object, Fields, property, keys, Source, current,
  adopted, explicit, selected, is_strict_numeric_sem_ver, source_of, allowed_fields, select_version,
  select_source, select, resolve_protocol_selector,
}
use praxis_bound.Common.{
  ◌≡◌, refl, ap, ◌↔◌, inl, inr, true, false, not, Option, none, some, arith, Bool-cases, any, Text,
  lit, text_eq, text_eq_sound, text_eq_refl, contains, texts,
}

-- how a selector spells a source
unfoldable pub source_name : Source → Text
source_name current = lit "current"
source_name adopted = lit "adopted"
source_name explicit = lit "explicit"

-- A current selector names no version, the two others name the implemented one.
abbrev pub NamesVersion : Source → JsValue → Type 0
NamesVersion current v = Unit
NamesVersion _ v = v ≡ string implemented_protocol_version

-- an object with the source's kind and version, and no other property
pub record Selects (fields : Fields) (source : Source) : Type 0 where
  pub kind : property fields (lit "kind") ≡ string (source_name source)
  pub known : any (λ name. not (contains (allowed_fields source) name)) (keys fields) ≡ false
  pub version : NamesVersion source (property fields (lit "version"))

kind_sound :
    (kind : Text) (source : Source)
    → source_of (string kind) ≡ some source
    → kind ≡ source_name source
unfolding source_of source_name
kind_sound kind source h = ground (
  arith,
  text_eq_sound kind (lit "current"),
  text_eq_sound kind (lit "adopted"),
  text_eq_sound kind (lit "explicit"),
)

source_of_sound :
    (v : JsValue) (source : Source) → source_of v ≡ some source → v ≡ string (source_name source)
source_of_sound (string kind) source h = ap (λ t. string t) (kind_sound kind source h)
source_of_sound js_undefined source h = absurd (unfold source_of in ground arith)
source_of_sound js_null source h = absurd (unfold source_of in ground arith)
source_of_sound other source h = absurd (unfold source_of in ground arith)
source_of_sound (object fields) source h = absurd (unfold source_of in ground arith)

source_of_complete : (source : Source) → source_of (string (source_name source)) ≡ some source
unfolding source_of source_name texts
source_of_complete current = refl
source_of_complete adopted = refl
source_of_complete explicit = refl

implemented_is_strict : is_strict_numeric_sem_ver implemented_protocol_version ≡ true
unfolding is_strict_numeric_sem_ver texts
implemented_is_strict = refl

same_selection : (a b : Source) (s t : Text) → selected a s ≡ selected b t → (a ≡ b) × (t ≡ s)
same_selection a b s t h = (cc, cc)

version_sound :
    (a b : Source) (v : JsValue) (t : Text)
    → select_version a v ≡ selected b t
    → (v ≡ string implemented_protocol_version) × (a ≡ b) × (t ≡ implemented_protocol_version)
unfolding select_version
version_sound a b (string version) t h = elim (Bool-cases (is_strict_numeric_sem_ver version)) [
  | inr e ↦ absurd (ground arith)
  | inl e ↦ elim (Bool-cases (text_eq version implemented_protocol_version)) [
    | inr g ↦ absurd (ground arith)
    | inl g ↦
        let (same, v) = same_selection a b implemented_protocol_version t (rw (e, g) at h) in
        (ap (λ x. string x) (text_eq_sound version implemented_protocol_version g), same, v)
  ]
]
version_sound a b js_undefined t h = cc
version_sound a b js_null t h = cc
version_sound a b other t h = cc
version_sound a b (object fields) t h = cc

version_complete :
    (source : Source)
    → select_version source (string implemented_protocol_version)
      ≡ selected source implemented_protocol_version
unfolding select_version
version_complete source = rw (implemented_is_strict, text_eq_refl implemented_protocol_version) refl

source_sound :
    (fields : Fields) (a b : Source) (t : Text)
    → select_source fields a ≡ selected b t
    → NamesVersion a (property fields (lit "version"))
      × (a ≡ b)
      × (t ≡ implemented_protocol_version)
unfolding select_source
source_sound fields current b t h =
    let (same, v) = same_selection current b implemented_protocol_version t h in (tt, same, v)
source_sound fields adopted b t h = version_sound adopted b _ t h
source_sound fields explicit b t h = version_sound explicit b _ t h

source_complete :
    (fields : Fields) (a : Source)
    → NamesVersion a (property fields (lit "version"))
    → select_source fields a ≡ selected a implemented_protocol_version
unfolding select_source
source_complete fields current n = refl
source_complete fields adopted n = rw n (version_complete adopted)
source_complete fields explicit n = rw n (version_complete explicit)

select_sound :
    (fields : Fields) (o : Option Source) (b : Source) (t : Text)
    → source_of (property fields (lit "kind")) ≡ o
    → select fields o ≡ selected b t
    → Selects fields b × (t ≡ implemented_protocol_version)
unfolding select
select_sound fields none b t e h = cc
select_sound fields (some a) b t e h =
    elim (Bool-cases (any (λ name. not (contains (allowed_fields a) name)) (keys fields))) [
      | inl k ↦ absurd (ground arith)
      | inr k ↦
          let (n, same, v) = source_sound fields a b t (rw k at h) in
          let found : Selects fields a = record {
            kind = source_of_sound _ a e;
            known = k;
            version = n;
          } in
          (subst (Selects fields) same found, v)
    ]

-- An object selects a source and a version exactly when its kind spells the source, it has no
-- unknown property, its version is the implemented one where the source needs one, and the version
-- selected is the implemented one.
pub resolve_protocol_selector-Selects :
    (fields : Fields) (source : Source) (version : Text)
    → (resolve_protocol_selector (object fields) ≡ selected source version)
      ↔ (Selects fields source × (version ≡ implemented_protocol_version))
unfolding resolve_protocol_selector
resolve_protocol_selector-Selects fields source version = (
  (λ h. select_sound fields _ source version refl h),
  (λ h.
      let (s, v) = h in
      rw (s.kind, source_of_complete source, v)
        (unfold select in rw s.known (source_complete fields source s.version))),
)
