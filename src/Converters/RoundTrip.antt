-- ===== src/Converters/RoundTrip.antt =====
-- What a selector is after the way over the wire.
use x_pdb.Prelude.{◌≡◌, refl, ap, ◌≢◌, none, List, [], ◌∷◌, map, arith}
use x_pdb.Api
use x_pdb.Proto
use x_pdb.Converters.{
  convert_label_selector_requirement_to_meta_v1, convert_label_selector_to_meta_v1,
  convert_label_selector_requirement_to_state, convert_label_selector_to_state,
}

requirements :
    (rs : List Api.LabelSelectorRequirement)
    → map convert_label_selector_requirement_to_meta_v1
        (map convert_label_selector_requirement_to_state rs)
      ≡ rs
unfolding convert_label_selector_requirement_to_meta_v1 convert_label_selector_requirement_to_state
requirements [] = refl
requirements (r ∷ rs) = ap (◌∷◌ r) (requirements rs)

-- A selector that is sent to a remote cluster arrives as it was.
pub to_meta_v1-to_state :
    (s : Api.LabelSelector)
    → convert_label_selector_to_meta_v1 (convert_label_selector_to_state s) ≡ s
unfolding convert_label_selector_to_meta_v1 convert_label_selector_to_state
to_meta_v1-to_state s =
    ap (λ rs. record { match_labels = s.match_labels; match_expressions = rs })
      (requirements s.match_expressions)

-- Every requirement has its key and its operator.
abbrev pub IsComplete : List Proto.LabelSelectorRequirement → Type 0
IsComplete [] = Unit
IsComplete (r ∷ rs) = (r.key ≢ none) × (r.operator ≢ none) × IsComplete rs

requirements_back :
    (rs : List Proto.LabelSelectorRequirement)
    → IsComplete rs
    → map convert_label_selector_requirement_to_state
        (map convert_label_selector_requirement_to_meta_v1 rs)
      ≡ rs
unfolding convert_label_selector_requirement_to_meta_v1 convert_label_selector_requirement_to_state
requirements_back [] h = refl
requirements_back (r ∷ rs) h = ground (arith, requirements_back rs h.2)

-- A message whose requirements have their key and operator is the only one for its selector.
pub to_state-to_meta_v1 :
    (s : Proto.LabelSelector)
    → IsComplete s.match_expressions
    → convert_label_selector_to_state (convert_label_selector_to_meta_v1 s) ≡ s
unfolding convert_label_selector_to_meta_v1 convert_label_selector_to_state
to_state-to_meta_v1 s h =
    ap (λ rs. record { match_labels = s.match_labels; match_expressions = rs })
      (requirements_back s.match_expressions h)
