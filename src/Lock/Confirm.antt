-- ===== src/Lock/Confirm.antt =====
-- The answers of the other clusters to Lock and Unlock: when the errors that are gathered from them are
-- none.
use mathlib.Core.List.{Mem, not-mem-nil, eq-or-mem_of_mem-cons, mem-cons_self, mem-cons_of_mem}
use mathlib.Core.List.Perm
use mathlib.Core.Logic.Or
use x_pdb.Prelude.{
  ◌≡◌, refl, sym, ap, subst, ◌∙◌, ◌≢◌, ◌↔◌, Bool, true, false, List, [], ◌∷◌, map, Error, Result,
  ok, err, fault, ◌>>=◌, >>=-eq-ok, Bool-cases, inl, inr,
}
use x_pdb.Remote.{ResultPool, IsResultPool}
use x_pdb.Remote.Pool.{wait_gathers}
use x_pdb.Lock.{joined}

module _ {A : Type 0} (good : A → Bool) where
  -- What came back from a cluster that confirms.
  abbrev pub Confirmed : Result A → Type 0
  Confirmed (ok r) = good r ≡ true
  Confirmed (err e) = ⊥
  Confirmed fault = ⊥

  Confirmed-prop : (r : Result A) → IsProp (Confirmed r)
  Confirmed-prop (ok r) = hlevel
  Confirmed-prop (err e) = hlevel
  Confirmed-prop fault = hlevel

  abbrev pub AllConfirmed : List (Result A) → Type 0
  AllConfirmed rs = (r : Result A) → Mem r rs → Confirmed r

  -- The responses of clusters that all confirm.
  responses : (rs : List (Result A)) → AllConfirmed rs → (xs : List A) × (rs ≡ map ok xs)
  responses [] all = ([], refl)
  responses (ok x ∷ rs) all =
      let (xs, e) = responses rs (λ r m. all r (mem-cons_of_mem (ok x) m)) in
      (x ∷ xs, ap (◌∷◌ (ok x)) e)
  responses (err e ∷ rs) all = absurd (all (err e) mem-cons_self)
  responses (fault ∷ rs) all = absurd (all fault mem-cons_self)

  joined-ok : (errs : List Error) → joined errs ≡ ok tt → errs ≡ []
  unfolding joined
  joined-ok [] e = refl
  joined-ok (x ∷ errs) e = cc

  -- `refusals` gathers an error from each response that is not good.
  module _ (refusals : List A → List Error) (none : refusals [] ≡ [])
      (skips : (x : A) (xs : List A) → good x ≡ true → refusals (x ∷ xs) ≡ refusals xs)
      (keeps : (x : A) (xs : List A) → good x ≡ false → refusals (x ∷ xs) ≢ []) where
    none_refused : (xs : List A) → AllConfirmed (map ok xs) → refusals xs ≡ []
    none_refused [] all = none
    none_refused (x ∷ xs) all =
        skips x xs (all (ok x) mem-cons_self)
        ∙ none_refused xs (λ r m. all r (mem-cons_of_mem (ok x) m))

    all_confirmed : (xs : List A) → refusals xs ≡ [] → AllConfirmed (map ok xs)
    all_confirmed [] e r m = absurd (not-mem-nil m)
    all_confirmed (x ∷ xs) e r m = elim (Bool-cases (good x)) [
      | inl is_good ↦
          Or.elim (Confirmed-prop r) (eq-or-mem_of_mem-cons m)
            (λ p. subst Confirmed (sym p) is_good)
            (λ m'. all_confirmed xs (sym (skips x xs is_good) ∙ e) r m')
      | inr is_bad ↦ absurd (keeps x xs is_bad e)
    ]

    -- The clusters answer with success exactly if all of them confirm.
    pub wait-joined_iff :
        (pool : ResultPool) (law : IsResultPool pool) (rs : List (Result A))
        → ((pool.wait rs >>= λ results. joined (refusals results)) ≡ ok tt) ↔ AllConfirmed rs
    unfolding joined
    wait-joined_iff pool law rs = (
      (λ e r m.
          let (xs, done, known) = >>=-eq-ok (pool.wait rs) _ e in
          all_confirmed xs (joined-ok (refusals xs) known) r
            ((Perm.mem_iff (law.wait_done rs xs done)).0 m)),
      (λ all.
          let (xs, p) = responses rs all in
          let (ys, done, q) = wait_gathers pool law xs in
          let done' : pool.wait rs ≡ ok ys = ap (λ l. pool.wait l) p ∙ done in
          let clean =
            none_refused ys (λ r m. all r ((Perm.mem_iff (law.wait_done rs ys done')).1 m)) in
          rw (done', clean) refl),
    )
