-- ===== src/Examples/Gather.antt =====
-- A pool of goroutines for the tests.
use mathlib.Core.List.{Perm}
use mathlib.Core.List.Perm
use x_pdb.Prelude.{
  ◌≡◌, refl, ap, subst, ◌∙◌, ok_inj, >>=-eq-ok, List, [], ◌∷◌, map, Result, ok, err, fault, ◌>>=◌,
}
use x_pdb.Remote.{ResultPool, IsResultPool}

-- The results in the order of the tasks.
abbrev gather : {A : Type 0} → List (Result A) → Result (List A)
gather [] = ok []
gather (ok a ∷ rs) = gather rs >>= λ xs. ok (a ∷ xs)
gather (err e ∷ rs) = err e
gather (fault ∷ rs) = fault

abbrev pub in_order : ResultPool
in_order = record { wait = gather }

gather_done : {A : Type 0} (rs : List (Result A)) (xs : List A) → gather rs ≡ ok xs → rs ≡ map ok xs
gather_done [] xs e = ap (map ok) (ok_inj e)
gather_done (ok a ∷ rs) xs e =
    let (ys, p, q) = >>=-eq-ok (gather rs) (λ ys. ok (a ∷ ys)) e in
    ap (◌∷◌ (ok a)) (gather_done rs ys p) ∙ ap (map ok) (ok_inj q)
gather_done (err x ∷ rs) xs e = cc
gather_done (fault ∷ rs) xs e = cc

gather_all : {A : Type 0} (xs : List A) → gather (map ok xs) ≡ ok xs
gather_all [] = refl
gather_all (x ∷ xs) = rw (gather_all xs) refl

pub in_order-IsResultPool : IsResultPool in_order
in_order-IsResultPool = record {
  wait_done = λ rs xs e. subst (Perm rs) (gather_done rs xs e) (Perm.refl rs);
  wait_all = λ xs. (xs, gather_all xs);
}
