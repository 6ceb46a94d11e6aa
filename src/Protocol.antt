-- ===== src/Protocol.antt =====
-- packages/core/src/protocol.ts and version.ts: which protocol version a selector asks for.
mod Tests
pub mod Selected
use praxis_bound.Result.{implemented_protocol_version}
use praxis_bound.Common.{
  ℕ, zero, suc, ◌+◌, ◌-◌, ◌≤◌, ◌<◌, ◌≡◌, refl, sym, ap, ◌∙◌, ◌≢◌, ◌↔◌, ◌⊎◌, inl, inr, Bool, true,
  false, not, ◌&&◌, ◌||◌, Option, none, some, List, [], ◌∷◌, ◌++◌, map, reverse, append-nil,
  append_assoc, arith, ltb, leb, ◌==◌, if◌then◌else◌, ==_iff, Bool-cases, Option-cases, and_true,
  not-true, is_none, or_else, length, get_elem?, get_or, take, drop, all, any, length-append,
  take-append-drop, take-length, drop-length, append-eq-nil, all-append, any-append, All,
  All-append, Text, lit, text_eq, text_eq_sound, text_eq_refl, text_eq_iff, contains, starts_with,
  ends_with, slice, strip_ends, index_of, includes, split, join, last_or, Issue, each, each_clean,
  each_inv, Lacks, onto_first, split-append, join-split, split-Lacks, split_one, split-join, In,
  In-append_left, In-append_right, In-append, contains-append, contains_self, contains_sound,
  contains_complete, texts, Distinct, text_eq_comm, Distinct-snoc, starts_with-append,
  includes-append, starts_with_sound, index_of_sound, decimal, is_digit, some_digits, if_clean,
  Distinct-Nodup, perm_of_contains, contains-Perm,
}

-- A JavaScript value as `resolveProtocolSelector` tells values apart. `other` is any value that is
-- neither nullish, a string nor a plain object: a number, a Boolean, an array, a function. An object
-- is its own enumerable properties, in order; nothing is inherited.
mutual
  pub data JsValue : Type 0 where
    js_undefined js_null other : JsValue
    string : Text → JsValue
    object : Fields → JsValue

  pub data Fields : Type 0 where
    empty : Fields
    field : (name : Text) → JsValue → Fields → Fields

-- selector[name]
unfoldable pub property : Fields → Text → JsValue
property empty name = js_undefined
property (field n value fields) name =
    let rest = property fields name in if text_eq n name then value else rest

-- Object.keys(selector)
unfoldable pub keys : Fields → List Text
keys empty = []
keys (field n value fields) = n ∷ keys fields

pub data Source : Type 0 where
  current adopted explicit : Source

pub data ErrorCode : Type 0 where
  missing_selector invalid_selector missing_protocol_version invalid_protocol_version
        unsupported_protocol_version :
      ErrorCode

-- ProtocolSelection
pub data Selection : Type 0 where
  selected : Source → (version : Text) → Selection
  selection_error : ErrorCode → Selection

-- /^(0|[1-9][0-9]*)$/
unfoldable pub is_numeric_part : Text → Bool
is_numeric_part [] = false
is_numeric_part (c ∷ s) =
    if c == b'0' then text_eq s [] else leb b'1' c && (leb c b'9' && all is_digit s)

-- the parts of the pattern have no dot, so it cuts at every dot
unfoldable pub three_parts : List Text → Bool
unfolding is_numeric_part
three_parts (a ∷ (b ∷ (c ∷ []))) = is_numeric_part a && (is_numeric_part b && is_numeric_part c)
three_parts _ = false

unfoldable pub is_strict_numeric_sem_ver : Text → Bool
unfolding three_parts
is_strict_numeric_sem_ver value = three_parts (split b'.' value)

-- the kind, if it is one of the three
unfoldable pub source_of : JsValue → Option Source
source_of (string kind) =
    if text_eq kind (lit "current")
    then some current
    else if text_eq kind (lit "adopted")
    then some adopted
    else if text_eq kind (lit "explicit")
    then some explicit
    else none
source_of _ = none

unfoldable pub allowed_fields : Source → List Text
allowed_fields current = lit "kind" ∷ []
allowed_fields _ = lit "kind" ∷ lit "version" ∷ []

-- the tests on the version
unfoldable pub select_version : Source → JsValue → Selection
select_version source js_undefined = selection_error missing_protocol_version
select_version source js_null = selection_error missing_protocol_version
select_version source (string version) =
    if not (is_strict_numeric_sem_ver version)
    then selection_error invalid_protocol_version
    else if not (text_eq version implemented_protocol_version)
    then selection_error unsupported_protocol_version
    else selected source implemented_protocol_version
select_version source _ = selection_error invalid_protocol_version

unfoldable pub select_source : Fields → Source → Selection
select_source fields current = selected current implemented_protocol_version
select_source fields source = select_version source (property fields (lit "version"))

unfoldable pub select : Fields → Option Source → Selection
select fields none = selection_error invalid_selector
select fields (some source) =
    if any (λ name. not (contains (allowed_fields source) name)) (keys fields)
    then selection_error invalid_selector
    else select_source fields source

unfoldable pub resolve_protocol_selector : JsValue → Selection
resolve_protocol_selector js_undefined = selection_error missing_selector
resolve_protocol_selector js_null = selection_error missing_selector
resolve_protocol_selector (object fields) = select fields (source_of (property fields (lit "kind")))
resolve_protocol_selector _ = selection_error invalid_selector
