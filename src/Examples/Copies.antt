-- ===== src/Examples/Copies.antt =====
-- A list of one budget, which is copied. The flag of the original is then written to in one heap, and all
-- that the copy consists of in another.
use x_pdb.Prelude.{
  ℕ, zero, suc, refl, ◌∙◌, String, Bool, true, Option, none, some, List, [], ◌∷◌, leb, ltb, ◌&&◌,
  if◌then◌else◌, arith,
}
use x_pdb.Prelude.Int.{pos}
use x_pdb.Api.{Xpdb, XpdbProbeSpec, int}
use x_pdb.DeepCopy.{
  Cell, bool, int_or_string, label_selector, object_meta, list_meta, probe_spec, budgets,
  budget_list, status, Heap, alloc, TypeMeta, Budget, Copier, MetaCopies, deep_copy_budget_list,
}
use x_pdb.DeepCopy.Shapes.{Same, IsCopy, At, at, value, pointer, alloc-old, alloc-new}
use x_pdb.DeepCopy.Independent.{
  IsMetaCopies, probe_shape, budget_shape, budget_list_shape, Apart, deep_copy_budget_list-Apart,
}
use x_pdb.Examples.{selector}

-- apimachinery's copies, as one new cell.
abbrev duplicate : Copier ℕ
duplicate h p = alloc h (h.cell p)

duplicate-IsCopy : {V : Type 0} (close : V → Cell) → IsCopy (at (value V) close) duplicate
unfolding alloc
duplicate-IsCopy close h p v (l, u, (a, e, same)) = record {
  up = omega arith;
  old = λ q l u. alloc-old h (h.cell p) q u;
  new = (omega arith, omega arith, (a, alloc-new h (h.cell p) ∙ e, same));
}

abbrev metas : MetaCopies
metas = record {
  selector_into = duplicate;
  object_meta_into = duplicate;
  list_meta_into = duplicate;
}

metas-IsMetaCopies : IsMetaCopies metas
metas-IsMetaCopies = record {
  selector = duplicate-IsCopy label_selector;
  object = duplicate-IsCopy object_meta;
  list = duplicate-IsCopy list_meta;
}

abbrev one_type : TypeMeta
one_type = record { kind = "XPodDisruptionBudget"; api_version = "x-pdb.form3.tech/v1alpha1" }

abbrev list_type : TypeMeta
list_type = record { kind = "XPodDisruptionBudgetList"; api_version = "x-pdb.form3.tech/v1alpha1" }

abbrev stored : Budget
stored = record {
  type_meta = one_type;
  object_meta = 0;
  spec = record {
    suspend = some 1;
    min_available = none;
    selector = 3;
    max_unavailable = some 2;
    probe = some 4;
  };
}

abbrev nth : List Cell → ℕ → Cell
nth [] n = status
nth (c ∷ cs) zero = c
nth (c ∷ cs) (suc n) = nth cs n

abbrev cells : List Cell
cells =
    object_meta (record { name = "web"; namespace = "shop" })
    ∷ bool true
    ∷ int_or_string (int (pos 1))
    ∷ label_selector selector
    ∷ probe_spec (record { enabled = some 1; endpoint = "web:8080" })
    ∷ budgets (stored ∷ [])
    ∷ list_meta "7"
    ∷ budget_list (record { type_meta = list_type; list_meta = 6; items = some 5 })
    ∷ []

abbrev heap : Heap
heap = record { next = 8; cell = nth cells }

abbrev probe : XpdbProbeSpec
probe = record { enabled = some true; endpoint = "web:8080" }

abbrev one : Xpdb
one = record {
  name = "web";
  namespace = "shop";
  spec = record {
    suspend = some true;
    min_available = none;
    selector = selector;
    max_unavailable = some (int (pos 1));
    probe = some probe;
  };
}

abbrev read : Option (TypeMeta × (String × Option (List (TypeMeta × Xpdb))))
read = some (list_type, ("7", some ((one_type, one) ∷ [])))

shown_flag : At (value Bool) bool 0 8 heap 1 true
shown_flag = (omega arith, omega arith, (true, refl, refl))

shown_probe : At probe_shape probe_spec 0 8 heap 4 probe
shown_probe = (
  omega arith,
  omega arith,
  (record { enabled = some 1; endpoint = "web:8080" }, refl, (shown_flag, refl)),
)

shown_one : budget_shape.shows 0 8 heap stored (one_type, one)
shown_one = (
  refl,
  (
    (omega arith, omega arith, (record { name = "web"; namespace = "shop" }, refl, refl)),
    (
      shown_flag,
      (
        tt,
        (
          (omega arith, omega arith, (selector, refl, refl)),
          ((omega arith, omega arith, (int (pos 1), refl, refl)), shown_probe),
        ),
      ),
    ),
  ),
)

shown : (pointer budget_list_shape budget_list).shows 0 8 heap (some 7) read
shown = (
  omega arith,
  omega arith,
  (
    record { type_meta = list_type; list_meta = 6; items = some 5 },
    refl,
    (
      refl,
      (
        (omega arith, omega arith, ("7", refl, refl)),
        (omega arith, omega arith, (stored ∷ [], refl, (shown_one, tt))),
      ),
    ),
  ),
)

abbrev copied : Heap × Option ℕ
copied = deep_copy_budget_list metas heap (some 7)

-- Something else is written to the cells from `lo` on and below `hi`.
abbrev scribbled : ℕ → ℕ → Heap → Heap
scribbled lo hi h = record h { cell = λ p. if leb lo p && ltb p hi then status else h.cell p }

below_kept : (h : Heap) (n m : ℕ) → Same n m h (scribbled 0 n h)
below_kept h n m p l u = ground arith

above_kept : (h : Heap) (n m : ℕ) → Same 0 n h (scribbled n m h)
above_kept h n m p l u = ground arith

deep_copy_budget_list-Apart_example :
    Apart
      (pointer budget_list_shape budget_list)
      heap
      (some 7)
      read
      copied
      (scribbled 0 8 copied.0)
      (scribbled 8 copied.0.next copied.0)
deep_copy_budget_list-Apart_example =
    deep_copy_budget_list-Apart metas metas-IsMetaCopies heap (some 7) (scribbled 0 8 copied.0)
      (scribbled 8 copied.0.next copied.0) read shown (below_kept copied.0 8 copied.0.next)
      (above_kept copied.0 8 copied.0.next)
