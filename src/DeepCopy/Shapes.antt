-- ===== src/DeepCopy/Shapes.antt =====
-- What a value in memory shows, where its memory lies, and copies that show the same in new memory.
use x_pdb.Prelude.{
  ℕ, suc, ◌≤◌, ◌<◌, ◌≡◌, refl, ◌∙◌, Option, none, some, List, [], ◌∷◌, eqb, arith, Bool-cases, inl,
  inr,
}
use x_pdb.DeepCopy.{Cell, Heap, alloc, Copier, plain, new_copy, opened, moved, copy_items}

-- The heap `h'` has the same cells from `lo` on and below `hi`.
abbrev pub Same : ℕ → ℕ → Heap → Heap → Type 0
Same lo hi h h' = (p : ℕ) → lo ≤ p → p < hi → h'.cell p ≡ h.cell p

-- `shows lo hi h a v`: in `h` the value `a` stands for `v`, and all that it refers to lies from `lo` on and
-- below `hi`, so that only these cells matter.
pub record Shape (A V : Type 0) : Type 1 where
  pub shows : ℕ → ℕ → Heap → A → V → Type 0
  pub frame :
      (lo hi lo' hi' : ℕ) (h h' : Heap) (a : A) (v : V)
      → lo' ≤ lo
      → hi ≤ hi'
      → Same lo hi h h'
      → shows lo hi h a v
      → shows lo' hi' h' a v

-- After a copy, the old cells are as they were, and the new value shows the same in new cells.
pub record Copied {A V : Type 0} (S : Shape A V) (h : Heap) (v : V) (r : Heap × A) : Type 0 where
  pub up : h.next ≤ r.0.next
  pub old : Same 0 h.next h r.0
  pub new : S.shows h.next r.0.next r.0 r.1 v

abbrev pub IsCopy : {A V : Type 0} → Shape A V → Copier A → Type 0
IsCopy {A} {V} S into =
    (h : Heap) (a : A) (v : V) → S.shows 0 h.next h a v → Copied S h v (into h a)

-- A value without pointers.
abbrev pub value : (A : Type 0) → Shape A A
value A = record {
  shows = λ lo hi h a v. a ≡ v;
  frame = λ lo hi lo' hi' h h' a v below above same e. e;
}

pub plain-IsCopy : (A : Type 0) → IsCopy (value A) plain
plain-IsCopy A h a v e = record { up = omega arith; old = λ p l u. refl; new = e }

-- The address of a cell that holds what is shown.
module _ {A V : Type 0} (S : Shape A V) (close : A → Cell) where
  abbrev pub At : ℕ → ℕ → Heap → ℕ → V → Type 0
  At lo hi h p v = (lo ≤ p) × (p < hi) × ((a : A) × (h.cell p ≡ close a) × S.shows lo hi h a v)

  abbrev Points : ℕ → ℕ → Heap → Option ℕ → Option V → Type 0
  Points lo hi h none none = Unit
  Points lo hi h none (some v) = ⊥
  Points lo hi h (some p) none = ⊥
  Points lo hi h (some p) (some v) = At lo hi h p v

  pub Points-frame :
      (lo hi lo' hi' : ℕ) (h h' : Heap) (a : Option ℕ) (v : Option V)
      → lo' ≤ lo
      → hi ≤ hi'
      → Same lo hi h h'
      → Points lo hi h a v
      → Points lo' hi' h' a v
  Points-frame lo hi lo' hi' h h' none none b c same s = tt
  Points-frame lo hi lo' hi' h h' none (some v) b c same s = absurd s
  Points-frame lo hi lo' hi' h h' (some p) none b c same s = absurd s
  Points-frame lo hi lo' hi' h h' (some p) (some v) b c same (l, u, (a, e, s)) =
      (omega arith, omega arith, (a, same p l u ∙ e, S.frame lo hi lo' hi' h h' a v b c same s))

  abbrev pub at : Shape ℕ V
  at = record {
    shows = At;
    frame = λ lo hi lo' hi' h h' p v b c same s.
        let (l, u, (a, e, t)) = s in
        (omega arith, omega arith, (a, same p l u ∙ e, S.frame lo hi lo' hi' h h' a v b c same t));
  }

  abbrev pub pointer : Shape (Option ℕ) (Option V)
  pointer = record { shows = Points; frame = Points-frame }

pub alloc-old : (h : Heap) (c : Cell) (p : ℕ) → p < h.next → (alloc h c).0.cell p ≡ h.cell p
unfolding alloc
alloc-old h c p u = elim (Bool-cases (eqb h.next p)) [
  | inl same ↦ absurd (ground arith)
  | inr other ↦ rw other refl
]

pub alloc-new : (h : Heap) (c : Cell) → (alloc h c).0.cell h.next ≡ c
unfolding alloc
alloc-new h c = elim (Bool-cases (eqb h.next h.next)) [
  | inl same ↦ rw same refl
  | inr other ↦ absurd (ground arith)
]

module _ {A V : Type 0} (S : Shape A V) (get : Cell → Option A) (close : A → Cell)
    (got : (a : A) → get (close a) ≡ some a) (into : Copier A) (law : IsCopy S into) where
  -- The new cell, after its content was copied.
  moved-Copied :
      (h : Heap) (v : V) (r : Heap × A)
      → Copied S h v r
      → Copied (pointer S close) h (some v) (moved get close into r)
  unfolding moved alloc
  moved-Copied h v (g, a) c =
      let n = g.next in
      let old = alloc-old g (close a) in
      record {
        up = omega (arith, c.up);
        old = λ p l u. old p (omega (arith, c.up)) ∙ c.old p l u;
        new = (
          c.up,
          omega arith,
          (
            a,
            alloc-new g (close a),
            S.frame h.next n h.next (suc n) g (alloc g (close a)).0 a v (omega arith) (omega arith)
                (λ p l u. old p u) c.new,
          ),
        );
      }

  -- A pointer to a copy is a copy of the pointer.
  pub new_copy-IsCopy : IsCopy (pointer S close) (new_copy get close into)
  unfolding new_copy opened
  new_copy-IsCopy h none none s = record { up = omega arith; old = λ p l u. refl; new = tt }
  new_copy-IsCopy h none (some v) s = absurd s
  new_copy-IsCopy h (some p) none s = absurd s
  new_copy-IsCopy h (some p) (some v) (l, u, (a, e, s)) =
      rw (e, got a) (moved-Copied h v (into h a) (law h a v s))

-- One copy after another.
module _ {A B V W : Type 0} (S : Shape A V) (T : Shape B W) where
  abbrev pub both : Shape (A × B) (V × W)
  both = record {
    shows = λ lo hi h a v. S.shows lo hi h a.0 v.0 × T.shows lo hi h a.1 v.1;
    frame = λ lo hi lo' hi' h h' a v b c same s. (
      S.frame lo hi lo' hi' h h' a.0 v.0 b c same s.0,
      T.frame lo hi lo' hi' h h' a.1 v.1 b c same s.1,
    );
  }

  abbrev pub in_turn : Copier A → Copier B → Copier (A × B)
  in_turn first second h (a, b) = let r = first h a in let t = second r.0 b in (t.0, (r.1, t.1))

  then-Copied :
      (h : Heap) (v : V) (w : W) (r : Heap × A) (t : Heap × B)
      → Copied S h v r
      → Copied T r.0 w t
      → Copied both h (v, w) (t.0, (r.1, t.1))
  then-Copied h v w r t c d = record {
    up = omega (arith, c.up, d.up);
    old = λ p l u. d.old p l (omega (arith, c.up)) ∙ c.old p l u;
    new = (
      S.frame h.next r.0.next h.next t.0.next r.0 t.0 r.1 v (omega arith) d.up
          (λ p l u. d.old p (omega arith) u) c.new,
      T.frame r.0.next t.0.next h.next t.0.next t.0 t.0 t.1 w c.up (omega arith) (λ p l u. refl)
          d.new,
    );
  }

  -- The second value, after the first copy.
  still :
      (h : Heap) (v : V) (w : W) (r : Heap × A) (b : B)
      → Copied S h v r
      → T.shows 0 h.next h b w
      → T.shows 0 r.0.next r.0 b w
  still h v w r b c s = T.frame 0 h.next 0 r.0.next h r.0 b w (omega arith) c.up c.old s

  pub both-IsCopy :
      (first : Copier A) (second : Copier B)
      → IsCopy S first
      → IsCopy T second
      → IsCopy both (in_turn first second)
  both-IsCopy first second fine well h (a, b) (v, w) (s, t) =
      let c = fine h a v s in
      let r = first h a in then-Copied h v w r (second r.0 b) c (well r.0 b w (still h v w r b c t))

-- The same fields under other names.
abbrev pub via : {A B V W : Type 0} → (B → A) → (W → V) → Shape A V → Shape B W
via f g S = record {
  shows = λ lo hi h b w. S.shows lo hi h (f b) (g w);
  frame = λ lo hi lo' hi' h h' b w. S.frame lo hi lo' hi' h h' (f b) (g w);
}

-- The items of an array.
module _ {A V : Type 0} (S : Shape A V) where
  abbrev Items : ℕ → ℕ → Heap → List A → List V → Type 0
  Items lo hi h [] [] = Unit
  Items lo hi h [] (v ∷ vs) = ⊥
  Items lo hi h (a ∷ xs) [] = ⊥
  Items lo hi h (a ∷ xs) (v ∷ vs) = S.shows lo hi h a v × Items lo hi h xs vs

  pub Items-frame :
      (lo hi lo' hi' : ℕ) (h h' : Heap) (xs : List A) (vs : List V)
      → lo' ≤ lo
      → hi ≤ hi'
      → Same lo hi h h'
      → Items lo hi h xs vs
      → Items lo' hi' h' xs vs
  Items-frame lo hi lo' hi' h h' [] [] b c same s = tt
  Items-frame lo hi lo' hi' h h' [] (v ∷ vs) b c same s = absurd s
  Items-frame lo hi lo' hi' h h' (a ∷ xs) [] b c same s = absurd s
  Items-frame lo hi lo' hi' h h' (a ∷ xs) (v ∷ vs) b c same (s, t) =
      (S.frame lo hi lo' hi' h h' a v b c same s, Items-frame lo hi lo' hi' h h' xs vs b c same t)

  abbrev pub items : Shape (List A) (List V)
  items = record { shows = Items; frame = Items-frame }

  pub copy_items-IsCopy : (into : Copier A) → IsCopy S into → IsCopy items (copy_items into)
  unfolding copy_items
  copy_items-IsCopy into law h [] [] s = record { up = omega arith; old = λ p l u. refl; new = tt }
  copy_items-IsCopy into law h [] (v ∷ vs) s = absurd s
  copy_items-IsCopy into law h (a ∷ xs) [] s = absurd s
  copy_items-IsCopy into law h (a ∷ xs) (v ∷ vs) (s, t) =
      let r = into h a in
      let c = law h a v s in
      let d = copy_items-IsCopy into law r.0 xs vs (still S items h v vs r xs c t) in
      let e = then-Copied S items h v vs r (copy_items into r.0 xs) c d in
      record { up = e.up; old = e.old; new = e.new }
