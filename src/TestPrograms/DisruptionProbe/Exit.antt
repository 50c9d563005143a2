-- ===== src/TestPrograms/DisruptionProbe/Exit.antt =====
-- How the disruption probe of the integration tests ends.
use x_pdb.Prelude.{
  ◌≡◌, refl, sym, ◌∙◌, ◌↔◌, Option, none, some, List, [], ◌∷◌, arith, Error, Result, ok, err, fault,
}
use x_pdb.TestPrograms.DisruptionProbe.{Group, IsGroup, exit_code, main}

-- How the goroutines of main end: none of them fails, or none of them panics.
abbrev pub AllOk : List (Result (Unit {0})) → Type 0
AllOk [] = Unit
AllOk (ok u ∷ rs) = AllOk rs
AllOk (err e ∷ rs) = ⊥
AllOk (fault ∷ rs) = ⊥

abbrev pub NoPanic : List (Result (Unit {0})) → Type 0
NoPanic [] = Unit
NoPanic (ok u ∷ rs) = NoPanic rs
NoPanic (err e ∷ rs) = NoPanic rs
NoPanic (fault ∷ rs) = ⊥

wait_none_iff :
    (group : Group)
    → IsGroup group
    → (rs : List (Result (Unit {0}))) → NoPanic rs
    → (group.wait rs ≡ none) ↔ AllOk rs
wait_none_iff group law [] calm = ((λ e. tt), (λ p. law.wait_none))
wait_none_iff group law (ok u ∷ rs) calm =
    let (to, from) = wait_none_iff group law rs calm in
    ((λ e. to (sym (law.wait_ok rs) ∙ e)), (λ p. law.wait_ok rs ∙ from p))
wait_none_iff group law (err e ∷ rs) calm =
    ((λ f. let g = sym (law.wait_err e rs) ∙ f in cc), (λ p. absurd p))
wait_none_iff group law (fault ∷ rs) calm = absurd calm

exit_code_iff : (group : Group) (o : Option Error) → (exit_code group o ≡ 0) ↔ (o ≡ none)
exit_code_iff group none = ((λ e. refl), (λ e. refl))
exit_code_iff group (some x) = ((λ e. absurd (omega arith)), (λ e. cc))

-- Where its goroutines do not panic, the program exits with 0 exactly if it has a client and none of them
-- fails: the end by a signal is a failure.
pub main-ok_iff :
    (group : Group)
    → IsGroup group
    → (client : Result (Unit {0})) (tasks : List (Result (Unit {0}))) → NoPanic tasks
    → (main group client tasks ≡ 0) ↔ ((client ≡ ok tt) × AllOk tasks)
unfolding main
main-ok_iff group law (ok u) tasks calm =
    let (to, from) = wait_none_iff group law tasks calm in
    let (zero, exits) = exit_code_iff group (group.wait tasks) in
    ((λ e. (refl, to (zero e))), (λ (c, p). exits (from p)))
main-ok_iff group law (err e) tasks calm = ((λ h. absurd (omega arith)), (λ (c, p). cc))
main-ok_iff group law fault tasks calm = ((λ h. absurd (omega arith)), (λ (c, p). cc))
