-- ===== src/Endpoints/Parse.antt =====
-- Which flags parseEndpoints accepts.
use x_pdb.Prelude.{
  ◌≡◌, refl, sym, ap, ◌∙◌, ◌≢◌, ◌⊎◌, inl, inr, ◌↔◌, String, true, false, List, [], ◌∷◌, map, ◌==◌,
  eq_iff, arith, Bool-cases,
}
use x_pdb.Endpoints.{Texts, read_parts, is_blank, parse_endpoints}

module _ (texts : Texts) where
  open texts use {split, trim_space}

  -- Every part of the list names an endpoint.
  abbrev pub AllNamed : List String → Type 0
  AllNamed [] = Unit
  AllNamed (s ∷ ss) = (trim_space s ≢ "") × AllNamed ss

  read_named : (ss : List String) → AllNamed ss → read_parts texts ss ≡ (map trim_space ss, [])
  unfolding read_parts
  read_named [] h = refl
  read_named (s ∷ ss) h = ground (arith, read_named ss h.1, eq_iff (trim_space s) "")

  read_errs : (ss : List String) → (read_parts texts ss).1 ≡ [] → AllNamed ss
  unfolding read_parts
  read_errs [] h = tt
  read_errs (s ∷ ss) h = elim (Bool-cases (trim_space s == "")) [
    | inl blank ↦ absurd (ground arith)
    | inr named ↦ ((λ e. ground (arith, eq_iff (trim_space s) "")), read_errs ss (ground arith))
  ]

  blank_only : (ss : List String) → is_blank texts ss ≡ true → ss ≡ "" ∷ []
  blank_only [] h = cc
  blank_only (s ∷ []) h = ap (λ t. t ∷ []) ((eq_iff s "").0 h)
  blank_only (s ∷ t ∷ ss) h = cc

  -- The empty flag names no endpoints. Any other is accepted exactly if each of its parts is more than
  -- white space, and then the endpoints are the parts, trimmed, in their order.
  pub parse_endpoints_lem :
      (s : String)
      → ((split s ≡ "" ∷ []) × (parse_endpoints texts s ≡ ([], [])))
        ⊎ ((split s ≢ "" ∷ [])
            × (((parse_endpoints texts s).1 ≡ []) ↔ AllNamed (split s))
            × (AllNamed (split s) → (parse_endpoints texts s).0 ≡ map trim_space (split s)))
  unfolding parse_endpoints
  parse_endpoints_lem s = elim (Bool-cases (is_blank texts (split s))) [
    | inl blank ↦ inl (blank_only (split s) blank, rw blank refl)
    | inr more ↦ inr (
      (λ e. let blank : false ≡ true = sym more ∙ ap (is_blank texts) e in cc),
      ((λ e. read_errs (split s) (rw more at e)), (λ h. rw (more, read_named (split s) h) refl)),
      (λ h. rw (more, read_named (split s) h) refl),
    )
  ]
