-- ===== src/DeepCopy/Independent.antt =====
-- The generated copies show what the originals show, and share no memory with them.
use x_pdb.Prelude.{ℕ, ◌∙◌, refl, String, Bool, Option, List, arith}
use x_pdb.Api.{IntOrString, LabelSelector, XpdbProbeSpec, XpdbSpec, Xpdb}
use x_pdb.DeepCopy.{
  bool, int_or_string, label_selector, object_meta, list_meta, probe_spec, spec, budget, budgets,
  budget_list, Heap, get_bool, get_int_or_string, get_probe_spec, get_spec, get_budget, get_budgets,
  get_budget_list, ProbeSpec, Spec, TypeMeta, ObjectMeta, Budget, BudgetList, plain, new_copy,
  copy_items, MetaCopies, probe_spec_into, spec_into, deep_copy_spec, budget_into, deep_copy_budget,
  budget_list_into, deep_copy_budget_list,
}
use x_pdb.DeepCopy.Shapes.{
  Same, Shape, Copied, IsCopy, value, plain-IsCopy, at, pointer, new_copy-IsCopy, both, both-IsCopy,
  via, items, copy_items-IsCopy,
}

abbrev pub ints : Shape (Option ℕ) (Option IntOrString)
ints = pointer (value IntOrString) int_or_string

abbrev pub bools : Shape (Option ℕ) (Option Bool)
bools = pointer (value Bool) bool

abbrev pub probe_shape : Shape ProbeSpec XpdbProbeSpec
probe_shape =
    via (λ s. (s.enabled, s.endpoint)) (λ s. (s.enabled, s.endpoint)) (both bools (value String))

abbrev pub spec_shape : Shape Spec XpdbSpec
spec_shape =
    via (λ s. (s.suspend, (s.min_available, (s.selector, (s.max_unavailable, s.probe)))))
      (λ s. (s.suspend, (s.min_available, (s.selector, (s.max_unavailable, s.probe)))))
      (both bools (
        both ints (
          both (at (value LabelSelector) label_selector)
            (both ints (pointer probe_shape probe_spec)))))

bools-IsCopy : IsCopy bools (new_copy get_bool bool plain)
bools-IsCopy = new_copy-IsCopy (value Bool) get_bool bool (λ b. refl) plain (plain-IsCopy Bool)

ints-IsCopy : IsCopy ints (new_copy get_int_or_string int_or_string plain)
ints-IsCopy =
    new_copy-IsCopy (value IntOrString) get_int_or_string int_or_string (λ b. refl) plain
      (plain-IsCopy IntOrString)

probe_spec_into-IsCopy : IsCopy probe_shape probe_spec_into
unfolding probe_spec_into
probe_spec_into-IsCopy h s v shown =
    let c =
      both-IsCopy bools (value String) (new_copy get_bool bool plain) plain bools-IsCopy
        (plain-IsCopy String) h (s.enabled, s.endpoint) (v.enabled, v.endpoint) shown in
    record { up = c.up; old = c.old; new = c.new }

-- What apimachinery documents of DeepCopyInto.
pub record IsMetaCopies (metas : MetaCopies) : Type 0 where
  pub selector : IsCopy (at (value LabelSelector) label_selector) metas.selector_into
  pub object : IsCopy (at (value ObjectMeta) object_meta) metas.object_meta_into
  pub list : IsCopy (at (value String) list_meta) metas.list_meta_into

-- A budget shows its type and what the program reads of it.
abbrev pub budget_shape : Shape Budget (TypeMeta × Xpdb)
budget_shape =
    via (λ b. (b.type_meta, (b.object_meta, b.spec)))
      (λ v. (v.0, (record { name = v.1.name; namespace = v.1.namespace }, v.1.spec)))
      (both (value TypeMeta) (both (at (value ObjectMeta) object_meta) spec_shape))

-- A list shows its type, its version and its budgets, where it has any.
abbrev pub budget_list_shape :
    Shape BudgetList (TypeMeta × (String × Option (List (TypeMeta × Xpdb))))
budget_list_shape =
    via (λ l. (l.type_meta, (l.list_meta, l.items))) (λ v. v)
      (both (value TypeMeta)
        (both (at (value String) list_meta) (pointer (items budget_shape) budgets)))

-- The copy `r` of `a`, in a heap where the rest was written to, and `a` itself, in a heap where the cells of
-- the copy were written to.
abbrev pub Apart : {A V : Type 0} → Shape A V → Heap → A → V → Heap × A → Heap → Heap → Type 0
Apart S h a v r g g' = S.shows h.next r.0.next g r.1 v × S.shows 0 h.next g' a v

Copied-Apart :
    {A V : Type 0} (S : Shape A V) (h : Heap) (a : A) (v : V) (r : Heap × A) (g g' : Heap)
    → S.shows 0 h.next h a v
    → Copied S h v r
    → Same h.next r.0.next r.0 g
    → Same 0 h.next r.0 g'
    → Apart S h a v r g g'
Copied-Apart S h a v r g g' shown c same same' = (
  S.frame h.next r.0.next h.next r.0.next r.0 g r.1 v (omega arith) (omega arith) same c.new,
  S.frame 0 h.next 0 h.next h g' a v (omega arith) (omega arith)
      (λ p l u. same' p l u ∙ c.old p l u) shown,
)

module _ (metas : MetaCopies) (law : IsMetaCopies metas) where
  spec_into-IsCopy : IsCopy spec_shape (spec_into metas)
  unfolding spec_into
  spec_into-IsCopy h s v shown =
      let probe =
        new_copy-IsCopy probe_shape get_probe_spec probe_spec (λ b. refl) probe_spec_into
          probe_spec_into-IsCopy in
      let sel = at (value LabelSelector) label_selector in
      let ptr = pointer probe_shape probe_spec in
      let copy_probe = new_copy get_probe_spec probe_spec probe_spec_into in
      let copy_int = new_copy get_int_or_string int_or_string plain in
      let four = both-IsCopy ints ptr copy_int copy_probe ints-IsCopy probe in
      let three = both-IsCopy sel (both ints ptr) metas.selector_into _ law.selector four in
      let two = both-IsCopy ints (both sel (both ints ptr)) copy_int _ ints-IsCopy three in
      let c =
        both-IsCopy bools (both ints (both sel (both ints ptr))) (new_copy get_bool bool plain) _
          bools-IsCopy two h
          (s.suspend, (s.min_available, (s.selector, (s.max_unavailable, s.probe))))
          (v.suspend, (v.min_available, (v.selector, (v.max_unavailable, v.probe)))) shown in
      record { up = c.up; old = c.old; new = c.new }

  budget_into-IsCopy : IsCopy budget_shape (budget_into metas)
  unfolding budget_into
  budget_into-IsCopy h b v shown =
      let obj = at (value ObjectMeta) object_meta in
      let two =
        both-IsCopy obj spec_shape metas.object_meta_into (spec_into metas) law.object
          spec_into-IsCopy in
      let c =
        both-IsCopy (value TypeMeta) (both obj spec_shape) plain _ (plain-IsCopy TypeMeta) two h
          (b.type_meta, (b.object_meta, b.spec))
          (v.0, (record { name = v.1.name; namespace = v.1.namespace }, v.1.spec)) shown in
      record { up = c.up; old = c.old; new = c.new }

  budget_list_into-IsCopy : IsCopy budget_list_shape (budget_list_into metas)
  unfolding budget_list_into
  budget_list_into-IsCopy h l v shown =
      let meta = at (value String) list_meta in
      let slice = pointer (items budget_shape) budgets in
      let all =
        new_copy-IsCopy (items budget_shape) get_budgets budgets (λ b. refl)
          (copy_items (budget_into metas))
          (copy_items-IsCopy budget_shape (budget_into metas) budget_into-IsCopy) in
      let two =
        both-IsCopy meta slice metas.list_meta_into
          (new_copy get_budgets budgets (copy_items (budget_into metas))) law.list all in
      let c =
        both-IsCopy (value TypeMeta) (both meta slice) plain _ (plain-IsCopy TypeMeta) two h
          (l.type_meta, (l.list_meta, l.items)) v shown in
      record { up = c.up; old = c.old; new = c.new }

  module _ (h : Heap) (p : Option ℕ) (g g' : Heap) where
    -- DeepCopy of a list of budgets shows what the original shows, whatever is then written elsewhere, and
    -- leaves the original to show the same, whatever is then written to the cells of the copy or to new
    -- ones; nil is copied as nil. This assumes of apimachinery's copies the same.
    pub deep_copy_budget_list-Apart :
        (v : Option (TypeMeta × (String × Option (List (TypeMeta × Xpdb)))))
        → (pointer budget_list_shape budget_list).shows 0 h.next h p v
        → let r = deep_copy_budget_list metas h p in
          Same h.next r.0.next r.0 g
          → Same 0 h.next r.0 g'
          → Apart (pointer budget_list_shape budget_list) h p v r g g'
    unfolding deep_copy_budget_list
    deep_copy_budget_list-Apart v s same same' =
        Copied-Apart (pointer budget_list_shape budget_list) h p v (deep_copy_budget_list metas h p)
          g g' s
          (new_copy-IsCopy budget_list_shape get_budget_list budget_list (λ b. refl)
            (budget_list_into metas) budget_list_into-IsCopy h p v s)
          same same'

    -- So for one budget,
    pub deep_copy_budget-Apart :
        (v : Option (TypeMeta × Xpdb))
        → (pointer budget_shape budget).shows 0 h.next h p v
        → let r = deep_copy_budget metas h p in
          Same h.next r.0.next r.0 g
          → Same 0 h.next r.0 g'
          → Apart (pointer budget_shape budget) h p v r g g'
    unfolding deep_copy_budget
    deep_copy_budget-Apart v s same same' =
        Copied-Apart (pointer budget_shape budget) h p v (deep_copy_budget metas h p) g g' s
          (new_copy-IsCopy budget_shape get_budget budget (λ b. refl) (budget_into metas)
            budget_into-IsCopy h p v s)
          same same'

    -- and for one spec.
    pub deep_copy_spec-Apart :
        (v : Option XpdbSpec)
        → (pointer spec_shape spec).shows 0 h.next h p v
        → let r = deep_copy_spec metas h p in
          Same h.next r.0.next r.0 g
          → Same 0 h.next r.0 g'
          → Apart (pointer spec_shape spec) h p v r g g'
    unfolding deep_copy_spec
    deep_copy_spec-Apart v s same same' =
        Copied-Apart (pointer spec_shape spec) h p v (deep_copy_spec metas h p) g g' s
          (new_copy-IsCopy spec_shape get_spec spec (λ b. refl) (spec_into metas) spec_into-IsCopy h
            p v s)
          same same'
