-- ===== src/DeepCopy.antt =====
-- api/v1alpha1/zz_generated.deepcopy.go: copies of the objects of api/v1alpha1 that share no memory with
-- them. Memory is a heap of cells, and a pointer an address; a nil pointer or slice is `none`. What a
-- metav1.LabelSelector, ObjectMeta or ListMeta refers to is one cell, which apimachinery copies.
pub mod Shapes
pub mod Independent
use x_pdb.Prelude.{ℕ, suc, String, Bool, Option, none, some, List, [], ◌∷◌, eqb, if◌then◌else◌}
use x_pdb.Api.{LabelSelector, IntOrString}

-- XPodDisruptionBudgetProbeSpec
pub record ProbeSpec : Type 0 where
  pub enabled : Option ℕ
  pub endpoint : String

-- XPodDisruptionBudgetSpec
pub record Spec : Type 0 where
  pub suspend : Option ℕ
  pub min_available : Option ℕ
  pub selector : ℕ
  pub max_unavailable : Option ℕ
  pub probe : Option ℕ

-- metav1.TypeMeta
pub record TypeMeta : Type 0 where
  pub kind : String
  pub api_version : String

-- The fields of metav1.ObjectMeta that the program reads.
pub record ObjectMeta : Type 0 where
  pub name : String
  pub namespace : String

-- XPodDisruptionBudget. Its status has no fields.
pub record Budget : Type 0 where
  pub type_meta : TypeMeta
  pub object_meta : ℕ
  pub spec : Spec

-- XPodDisruptionBudgetList. The slice of items refers to an array.
pub record BudgetList : Type 0 where
  pub type_meta : TypeMeta
  pub list_meta : ℕ
  pub items : Option ℕ

pub data Cell : Type 0 where
  bool : Bool → Cell
  int_or_string : IntOrString → Cell
  label_selector : LabelSelector → Cell
  object_meta : ObjectMeta → Cell
  list_meta : String → Cell
  probe_spec : ProbeSpec → Cell
  spec : Spec → Cell
  budget : Budget → Cell
  budgets : List Budget → Cell
  budget_list : BudgetList → Cell
  status : Cell

-- The addresses below `next` are in use.
pub record Heap : Type 0 where
  pub next : ℕ
  pub cell : ℕ → Cell

unfoldable pub alloc : Heap → Cell → Heap × ℕ
alloc h c = (record { next = suc h.next; cell = λ p. if eqb h.next p then c else h.cell p }, h.next)

-- What a cell of the right type holds. Go's types rule out the others.
abbrev pub get_bool : Cell → Option Bool
get_bool (bool b) = some b
get_bool _ = none

abbrev pub get_int_or_string : Cell → Option IntOrString
get_int_or_string (int_or_string v) = some v
get_int_or_string _ = none

abbrev pub get_probe_spec : Cell → Option ProbeSpec
get_probe_spec (probe_spec s) = some s
get_probe_spec _ = none

abbrev pub get_spec : Cell → Option Spec
get_spec (spec s) = some s
get_spec _ = none

abbrev pub get_budget : Cell → Option Budget
get_budget (budget b) = some b
get_budget _ = none

abbrev pub get_budgets : Cell → Option (List Budget)
get_budgets (budgets bs) = some bs
get_budgets _ = none

abbrev pub get_budget_list : Cell → Option BudgetList
get_budget_list (budget_list l) = some l
get_budget_list _ = none

abbrev pub get_status : Cell → Option (Unit {0})
get_status status = some tt
get_status _ = none

-- A copy of what a value refers to.
abbrev pub Copier : Type 0 → Type 0
Copier A = Heap → A → Heap × A

-- `*out = *in`, for a value without pointers.
abbrev pub plain : {A : Type 0} → Copier A
plain h a = (h, a)

module _ {A : Type 0} (get : Cell → Option A) (close : A → Cell) (into : Copier A) where
  -- `new`, and the copy into it. The new cell is taken when its content is there.
  pub moved : Heap × A → Heap × Option ℕ
  unfolding alloc
  moved (h, a) = let r = alloc h (close a) in (r.0, some r.1)

  pub opened : Heap → Option A → Heap × Option ℕ
  unfolding moved
  opened h none = (h, none)
  opened h (some a) = moved (into h a)

  -- A pointer, whose nil is left as it is.
  pub new_copy : Copier (Option ℕ)
  unfolding opened
  new_copy h none = (h, none)
  new_copy h (some p) = opened h (get (h.cell p))

-- The loop over the items.
pub copy_items : {A : Type 0} → Copier A → Copier (List A)
copy_items into h [] = (h, [])
copy_items into h (x ∷ xs) =
    let r = into h x in let rest = copy_items into r.0 xs in (rest.0, r.1 ∷ rest.1)

-- DeepCopyInto of apimachinery's types.
pub record MetaCopies : Type 0 where
  pub selector_into : Copier ℕ
  pub object_meta_into : Copier ℕ
  pub list_meta_into : Copier ℕ

unfoldable pub probe_spec_into : Copier ProbeSpec
unfolding new_copy
probe_spec_into h s =
    let r = new_copy get_bool bool plain h s.enabled in (r.0, record s { enabled = r.1 })

unfoldable pub deep_copy_probe_spec : Copier (Option ℕ)
unfolding new_copy
deep_copy_probe_spec = new_copy get_probe_spec probe_spec probe_spec_into

unfoldable pub status_into : Copier (Unit {0})
status_into h u = (h, u)

unfoldable pub deep_copy_status : Copier (Option ℕ)
unfolding new_copy
deep_copy_status = new_copy get_status (λ u. status) status_into

-- A pointer as a runtime.Object, and nil as the object that is nil.
pub as_object : Heap × Option ℕ → Heap × Option ℕ
as_object (h, some c) = (h, some c)
as_object (h, none) = (h, none)

module _ (metas : MetaCopies) where
  open metas use {selector_into, object_meta_into, list_meta_into}

  unfoldable pub spec_into : Copier Spec
  unfolding new_copy
  spec_into h s =
      let a = new_copy get_bool bool plain h s.suspend in
      let b = new_copy get_int_or_string int_or_string plain a.0 s.min_available in
      let c = selector_into b.0 s.selector in
      let d = new_copy get_int_or_string int_or_string plain c.0 s.max_unavailable in
      let e = new_copy get_probe_spec probe_spec probe_spec_into d.0 s.probe in
      (
        e.0,
        record {
          suspend = a.1;
          min_available = b.1;
          selector = c.1;
          max_unavailable = d.1;
          probe = e.1;
        },
      )

  unfoldable pub deep_copy_spec : Copier (Option ℕ)
  unfolding new_copy
  deep_copy_spec = new_copy get_spec spec spec_into

  unfoldable pub budget_into : Copier Budget
  unfolding spec_into
  budget_into h b =
      let m = object_meta_into h b.object_meta in
      let s = spec_into m.0 b.spec in
      (s.0, record { type_meta = b.type_meta; object_meta = m.1; spec = s.1 })

  unfoldable pub deep_copy_budget : Copier (Option ℕ)
  unfolding new_copy
  deep_copy_budget = new_copy get_budget budget budget_into

  unfoldable pub deep_copy_budget_object : Copier (Option ℕ)
  unfolding as_object
  deep_copy_budget_object h p = as_object (deep_copy_budget h p)

  unfoldable pub budget_list_into : Copier BudgetList
  unfolding new_copy copy_items
  budget_list_into h l =
      let m = list_meta_into h l.list_meta in
      let i = new_copy get_budgets budgets (copy_items budget_into) m.0 l.items in
      (i.0, record { type_meta = l.type_meta; list_meta = m.1; items = i.1 })

  unfoldable pub deep_copy_budget_list : Copier (Option ℕ)
  unfolding new_copy
  deep_copy_budget_list = new_copy get_budget_list budget_list budget_list_into

  unfoldable pub deep_copy_budget_list_object : Copier (Option ℕ)
  unfolding as_object
  deep_copy_budget_list_object h p = as_object (deep_copy_budget_list h p)
