-- ===== src/Prelude/Folds.antt =====
-- Loops over a list whose steps commute.
use mathlib.Core.List.{List, ◌∷◌, Perm, Permᴰ}
use mathlib.Core.Logic.{∥∥₁_elim}
use mathlib.Core.Path.{◌≡◌, refl, ap, sym, ◌∙◌}

module _ {ℓ κ} {A : Type ℓ} {C : Type κ} (C-set : IsSet C) (loop : C → List A → C)
    (step : C → A → C)
    (unroll : (c : C) (x : A) (xs : List A) → loop c (x ∷ xs) ≡ loop (step c x) xs)
    (commute : (c : C) (x y : A) → step (step c x) y ≡ step (step c y) x) where
  pub loop-swap : (c : C) (x y : A) (zs : List A) → loop c (x ∷ y ∷ zs) ≡ loop c (y ∷ x ∷ zs)
  loop-swap c x y zs =
      unroll c x (y ∷ zs)
      ∙ unroll (step c x) y zs
      ∙ ap (λ d. loop d zs) (commute c x y)
      ∙ sym (unroll c y (x ∷ zs) ∙ unroll (step c y) x zs)

  loop-permᴰ : (xs ys : List A) → Permᴰ xs ys → (c : C) → loop c xs ≡ loop c ys
  loop-permᴰ xs ys Permᴰ.nil c = refl
  loop-permᴰ xs ys (Permᴰ.cons {a} {b} {l₁} {l₂} e p) c =
      unroll c a l₁ ∙ loop-permᴰ l₁ l₂ p (step c a) ∙ sym (unroll c a l₂) ∙ (λ i. loop c (e i ∷ l₂))
  loop-permᴰ xs ys (Permᴰ.swap {a} {b} {a'} {b'} {l} e f) c =
      loop-swap c a b l ∙ (λ i. loop c (f i ∷ e i ∷ l))
  loop-permᴰ xs ys (Permᴰ.trans {l₁} {l₂} {l₃} p q) c = loop-permᴰ l₁ l₂ p c ∙ loop-permᴰ l₂ l₃ q c

  -- The loop ends the same whatever the order of the list.
  pub loop-perm : (c : C) (xs ys : List A) → Perm xs ys → loop c xs ≡ loop c ys
  loop-perm c xs ys p = ∥∥₁_elim p (C-set _ _) (λ d. loop-permᴰ xs ys d c)
