-- ===== src/Lock/Tasks.antt =====
-- The calls to all clusters, one after the other, in the order in which the goroutines run.
use mathlib.Core.List.{Permᴰ, mem-cons_self, mem-cons_of_mem}
use x_pdb.Prelude.{
  ◌≡◌, refl, subst, ◌∙◌, sym, ◌≢◌, String, Bool, true, List, [], ◌∷◌, ◌==◌, eq_iff, arith, Result,
  ok, err, fault, Bool-cases, inl, inr,
}
use x_pdb.Remote.{run_tasks, with_client}
use x_pdb.Lock.Confirm.{Confirmed, AllConfirmed}

-- What is said of each endpoint.
abbrev pub Everywhere : {W : Type 0} → (String → W → Type 0) → List String → W → Type 0
Everywhere Good [] w = Unit
Everywhere Good (e ∷ es) w = Good e w × Everywhere Good es w

pub Everywhere-perm :
    {W : Type 0} (Good : String → W → Type 0) (es fs : List String) (w : W)
    → Permᴰ es fs
    → Everywhere Good es w
    → Everywhere Good fs w
Everywhere-perm Good es fs w Permᴰ.nil h = h
Everywhere-perm Good es fs w (Permᴰ.cons {a} {b} {l₁} {l₂} e p) h =
    (subst (λ f. Good f w) e h.0, Everywhere-perm Good l₁ l₂ w p h.1)
Everywhere-perm Good es fs w (Permᴰ.swap {a} {b} {a'} {b'} {l} e f) h =
    (subst (λ g. Good g w) f h.1.0, (subst (λ g. Good g w) e h.0, h.1.1))
Everywhere-perm Good es fs w (Permᴰ.trans {l₁} {l₂} {l₃} p q) h =
    Everywhere-perm Good l₂ l₃ w q (Everywhere-perm Good l₁ l₂ w p h)

module _ {W Client A : Type 0} (pool_get : W → String → W × Result Client)
    (call : W → Client → W × Result A) where
  -- The task of an endpoint.
  abbrev pub task : W → String → W × Result A
  task w e = with_client call (pool_get w e)

  -- What neither the pool nor a call changes.
  module _ {X : Type 0} (view : W → X)
      (get_same : (w : W) (e : String) → view (pool_get w e).0 ≡ view w)
      (call_same : (w : W) (c : Client) → view (call w c).0 ≡ view w) where
    with_client_same : (p : W × Result Client) → view (with_client call p).0 ≡ view p.0
    unfolding with_client
    with_client_same (w, ok c) = call_same w c
    with_client_same (w, err x) = refl
    with_client_same (w, fault) = refl

    pub tasks_same : (es : List String) (w : W) → view (run_tasks task es w).0 ≡ view w
    unfolding run_tasks
    tasks_same [] w = refl
    tasks_same (e ∷ es) w =
        tasks_same es (task w e).0 ∙ with_client_same (pool_get w e) ∙ get_same w e

  -- A call that confirms makes `Good` true at its endpoint, and no call changes it at another one.
  module _ (good : A → Bool) (endpoint_of : Client → String) (Good : String → W → Type 0)
      (get_target : (w : W) (e : String) (c : Client) → (pool_get w e).1 ≡ ok c → endpoint_of c ≡ e)
      (get_keeps : (w : W) (e f : String) → Good f w → Good f (pool_get w e).0)
      (makes : (w : W) (c : Client) (x : A)
        → (call w c).1 ≡ ok x
        → good x ≡ true
        → Good (endpoint_of c) (call w c).0)
      (keeps : (w : W) (c : Client) (f : String)
        → f ≢ endpoint_of c
        → Good f w
        → Good f (call w c).0) where
    call_makes :
        (w : W) (c : Client) (r : Result A)
        → (call w c).1 ≡ r
        → Confirmed good r
        → Good (endpoint_of c) (call w c).0
    call_makes w c (ok x) e a = makes w c x e a
    call_makes w c (err x) e a = absurd a
    call_makes w c fault e a = absurd a

    with_client_makes :
        (f : String) (p : W × Result Client)
        → ((c : Client) → p.1 ≡ ok c → endpoint_of c ≡ f)
        → Confirmed good (with_client call p).1
        → Good f (with_client call p).0
    unfolding with_client
    with_client_makes f (w, ok c) target a =
        subst (λ g. Good g (call w c).0) (target c refl) (call_makes w c _ refl a)
    with_client_makes f (w, err x) target a = absurd a
    with_client_makes f (w, fault) target a = absurd a

    with_client_keeps :
        (f : String) (p : W × Result Client)
        → Confirmed good (with_client call p).1
        → Good f p.0
        → Good f (with_client call p).0
    unfolding with_client
    with_client_keeps f (w, ok c) a h = elim (Bool-cases (f == endpoint_of c)) [
      | inl same ↦
          subst (λ g. Good g (call w c).0) (sym ((eq_iff f (endpoint_of c)).0 same))
            (call_makes w c _ refl a)
      | inr other ↦ keeps w c f (λ e. ground (arith, eq_iff f (endpoint_of c))) h
    ]
    with_client_keeps f (w, err x) a h = h
    with_client_keeps f (w, fault) a h = h

    tasks_keep :
        (f : String) (es : List String) (w : W)
        → AllConfirmed good (run_tasks task es w).1
        → Good f w
        → Good f (run_tasks task es w).0
    unfolding run_tasks
    tasks_keep f [] w all h = h
    tasks_keep f (e ∷ es) w all h =
        tasks_keep f es (task w e).0 (λ r m. all r (mem-cons_of_mem (task w e).1 m))
          (with_client_keeps f (pool_get w e) (all (task w e).1 mem-cons_self) (get_keeps w e f h))

    -- Where all confirm, it is true at every endpoint in the end.
    pub tasks_make :
        (es : List String) (w : W)
        → AllConfirmed good (run_tasks task es w).1
        → Everywhere Good es (run_tasks task es w).0
    unfolding run_tasks
    tasks_make [] w all = tt
    tasks_make (e ∷ es) w all =
        let later : AllConfirmed good (run_tasks task es (task w e).0).1 =
          λ r m. all r (mem-cons_of_mem (task w e).1 m) in
        let this =
          with_client_makes e (pool_get w e) (get_target w e) (all (task w e).1 mem-cons_self) in
        (tasks_keep e es (task w e).0 later this, tasks_make es (task w e).0 later)
