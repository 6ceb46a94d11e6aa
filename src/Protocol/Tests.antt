-- ===== src/Protocol/Tests.antt =====
-- Selectors taken and refused, and the witness of the selector theorem.
use praxis_bound.Result.{implemented_protocol_version}
use praxis_bound.Protocol.{
  js_null, other, string, object, Fields, empty, field, property, keys, adopted, selected,
  selection_error, missing_selector, invalid_selector, invalid_protocol_version,
  unsupported_protocol_version, is_strict_numeric_sem_ver, source_of, allowed_fields,
  select_version, select_source, select, resolve_protocol_selector,
}
use praxis_bound.Protocol.Selected.{Selects, resolve_protocol_selector-Selects}
use praxis_bound.Common.{◌≡◌, refl, ◌↔◌, Text, lit, texts}

reading : Unit {0}
unfolding property keys is_strict_numeric_sem_ver source_of allowed_fields select_version
    select_source select resolve_protocol_selector texts
reading = tt

-- an adopted selector with a version
abbrev adopted_fields : Text → Fields
adopted_fields version =
    field (lit "version") (string version) (field (lit "kind") (string (lit "adopted")) empty)

selections :
    (resolve_protocol_selector (object (adopted_fields (lit "0.10.0")))
      ≡ selected adopted (lit "0.10.0"))
    × (resolve_protocol_selector (object (adopted_fields (lit "0.9.0")))
        ≡ selection_error unsupported_protocol_version)
    × (resolve_protocol_selector (object (adopted_fields (lit "01.0.0")))
        ≡ selection_error invalid_protocol_version)
    × (resolve_protocol_selector
          (object (field (lit "kind") (string (lit "current")) (field (lit "x") other empty)))
        ≡ selection_error invalid_selector)
    × (resolve_protocol_selector js_null ≡ selection_error missing_selector)
unfolding reading
selections = (refl, refl, refl, refl, refl)

resolve_protocol_selector-Selects_example :
    (resolve_protocol_selector (object (adopted_fields (lit "0.10.0")))
      ≡ selected adopted (lit "0.10.0"))
    ↔ (Selects (adopted_fields (lit "0.10.0")) adopted
        × (lit "0.10.0" ≡ implemented_protocol_version))
resolve_protocol_selector-Selects_example =
    resolve_protocol_selector-Selects (adopted_fields (lit "0.10.0")) adopted (lit "0.10.0")
