-- ===== src/TestPrograms/App/Readiness.antt =====
-- What the application of the integration tests reports.
use x_pdb.Prelude.{
  ◌≡◌, refl, ◌⊎◌, String, Bool, true, false, Option, none, some, List, [], ◌∷◌, ◌==◌, Error, ok,
}
use x_pdb.Api.{Labels}
use x_pdb.TestPrograms.{data_at, or_empty}
use x_pdb.TestPrograms.App.{
  Event, object, interrupt, is_pod_ready, run, starting, main, running, connected, watched,
}

module _ (parse_bool : String → Bool × Option Error) (hostname : String) where
  -- The ConfigMap says that all pods are ready, or that this one is.
  abbrev pub Says : Option Labels → Type 0
  Says none = ⊥
  Says (some entries) =
      (or_empty (data_at "always" entries) ≡ "true")
      ⊎ ((val : String) × (data_at hostname entries ≡ some val) × ((parse_bool val).0 ≡ true))

  -- The last object that was received, where there is one.
  abbrev pub last_object : List Event → Option (Option Labels)
  last_object [] = none
  last_object (interrupt ∷ es) = last_object es
  last_object (object cm ∷ es) = elim (last_object es) [ none ↦ some cm | some o ↦ some o ]

  abbrev pub LastSays : Option (Option Labels) → Type 0
  LastSays none = ⊥
  LastSays (some cm) = Says cm

  -- What is kept of the events so far, where `before` says what was reported at first.
  abbrev reported : Bool → Option (Option Labels) → Bool
  reported before none = before
  reported before (some cm) = (is_pod_ready parse_bool hostname cm).0

  -- Where the program can watch ConfigMaps in a namespace that it knows, its loop goes on whatever it
  -- receives, so that it never exits, also not after the signal.
  pub main_runs :
      (my_namespace : String) (es : List Event)
      → (my_namespace == "") ≡ false
      → main parse_bool hostname (ok tt) my_namespace (ok tt) es
        ≡ running (run parse_bool hostname es starting)
  unfolding main
  main_runs my_namespace es named = rw (named, connected, watched) refl
