-- ===== src/Webhook/Handle/DryRun.antt =====
-- What the dry-run mode changes.
use x_pdb.Prelude.{◌≡◌, ◌↔◌, String, true, Result, ok}
use x_pdb.Webhook.{Request, Response, Config, Services, State, Admission, IsAdmission}
use x_pdb.Webhook.Handle.{handle}
use x_pdb.Webhook.Handle.Verdict.{handle-AdmitsIff}

-- The same configuration in dry-run mode.
abbrev pub dry : Config → Config
dry h = record h { dry_run = true }

-- A response that admits.
abbrev pub Allows : Result Response → Type 0
Allows x = (r : Response) × (x ≡ ok r) × (r.allowed ≡ true)

module _ {W : Type 0} (services : Services W) (admission : Admission)
    (law : IsAdmission admission) where
  -- In dry-run mode the webhook admits exactly the requests that it admits otherwise: it rejects those
  -- that violate a budget too.
  pub dry_run_verdict :
      (h : Config) (request : Request) (uuid : String) (st : State W)
      → Allows (handle services admission (dry h) request uuid st).1
        ↔ Allows (handle services admission h request uuid st).1
  dry_run_verdict h request uuid st =
      let wet = handle-AdmitsIff services h admission law request uuid st in
      let dried = handle-AdmitsIff services (dry h) admission law request uuid st in
      ((λ a. wet.1 (dried.0 a.0 a.1 a.2)), (λ a. dried.1 (wet.0 a.0 a.1 a.2)))
