-- ===== src/Converters.antt =====
-- internal/converters/converters.go: label selectors between the API's form and the wire's.
pub mod RoundTrip
use x_pdb.Prelude.{String, Option, none, some, map}
use x_pdb.Api
use x_pdb.Proto

-- A nil pointer leaves the field at its zero value.
abbrev or_empty : Option String → String
or_empty none = ""
or_empty (some s) = s

unfoldable pub convert_label_selector_requirement_to_meta_v1 :
    Proto.LabelSelectorRequirement → Api.LabelSelectorRequirement
convert_label_selector_requirement_to_meta_v1 r = record {
  key = or_empty r.key;
  operator = or_empty r.operator;
  values = r.values;
}

unfoldable pub convert_label_selector_to_meta_v1 : Proto.LabelSelector → Api.LabelSelector
unfolding convert_label_selector_requirement_to_meta_v1
convert_label_selector_to_meta_v1 s = record {
  match_labels = s.match_labels;
  match_expressions = map convert_label_selector_requirement_to_meta_v1 s.match_expressions;
}

unfoldable pub convert_label_selector_requirement_to_state :
    Api.LabelSelectorRequirement → Proto.LabelSelectorRequirement
convert_label_selector_requirement_to_state r = record {
  key = some r.key;
  operator = some r.operator;
  values = r.values;
}

unfoldable pub convert_label_selector_to_state : Api.LabelSelector → Proto.LabelSelector
unfolding convert_label_selector_requirement_to_state
convert_label_selector_to_state s = record {
  match_labels = s.match_labels;
  match_expressions = map convert_label_selector_requirement_to_state s.match_expressions;
}
