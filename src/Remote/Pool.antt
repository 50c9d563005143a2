-- ===== src/Remote/Pool.antt =====
-- What a wait for the goroutines tells about them.
use mathlib.Core.List.{Mem, Perm, mem-map, filter_map, mem-cons_self, mem-cons_of_mem}
use mathlib.Core.Path.{subst₂}
use mathlib.Core.List.Perm
use mathlib.Core.Logic.{∥∥₁_elim}
use mathlib.Core.HLevel.{⊥_prop}
use x_pdb.Prelude.{
  ◌≡◌, refl, ap, subst, Option, none, some, ◌≢◌, List, [], ◌∷◌, map, Result, ok, err, fault,
}
use x_pdb.Remote.{ResultPool, IsResultPool}

module _ {A : Type 0} where
  not-mem-map_ok : {r : Result A} (xs : List A) → ((a : A) → ok a ≢ r) → ¬ Mem r (map ok xs)
  not-mem-map_ok xs n h = ∥∥₁_elim (mem-map.0 h) ⊥_prop (λ q. n q.0 q.2)

  abbrev value : Result A → Option A
  value (ok a) = some a
  value (err e) = none
  value fault = none

  values : (xs : List A) → filter_map value (map ok xs) ≡ xs
  unfolding filter_map
  values [] = refl
  values (x ∷ xs) = ap (◌∷◌ x) (values xs)

  same_values : (xs ys : List A) → Perm (map ok xs) (map ok ys) → Perm xs ys
  same_values xs ys p = subst₂ Perm (values xs) (values ys) (Perm.filter_map value p)

  all_values :
      (rs : List (Result A))
      → ((r : Result A) → ((a : A) → ok a ≢ r) → ¬ Mem r rs)
      → (xs : List A) × (rs ≡ map ok xs)
  all_values [] h = ([], refl)
  all_values (ok a ∷ rs) h =
      let (xs, e) = all_values rs (λ r n m. h r n (mem-cons_of_mem (ok a) m)) in
      (a ∷ xs, ap (◌∷◌ (ok a)) e)
  all_values (err x ∷ rs) h = absurd (h (err x) (λ a p. cc) mem-cons_self)
  all_values (fault ∷ rs) h = absurd (h fault (λ a p. cc) mem-cons_self)

  module _ (pool : ResultPool) (law : IsResultPool pool) where
    -- If a task failed, so does the wait.
    pub wait_fails :
        (rs : List (Result A)) (r : Result A)
        → ((a : A) → ok a ≢ r)
        → Mem r rs
        → (xs : List A) → pool.wait rs ≢ ok xs
    wait_fails rs r n m xs e = not-mem-map_ok xs n ((Perm.mem_iff (law.wait_done rs xs e)).0 m)

    -- If no task failed, the wait gives their results, in some order.
    pub wait_gathers : (xs : List A) → (ys : List A) × (pool.wait (map ok xs) ≡ ok ys) × Perm ys xs
    wait_gathers xs =
        let (ys, e) = law.wait_all xs in
        (ys, e, same_values ys xs (Perm.symm (law.wait_done (map ok xs) ys e)))

    -- Where the wait has results, every task has one, and the wait has the same in some order.
    pub done_values :
        (rs : List (Result A)) (ys : List A)
        → pool.wait rs ≡ ok ys
        → (xs : List A) × (rs ≡ map ok xs) × Perm ys xs
    done_values rs ys done =
        let p = law.wait_done rs ys done in
        let (xs, e) = all_values rs (λ r n m. not-mem-map_ok ys n ((Perm.mem_iff p).0 m)) in
        (xs, e, Perm.symm (same_values xs ys (subst (λ l. Perm l (map ok ys)) e p)))
