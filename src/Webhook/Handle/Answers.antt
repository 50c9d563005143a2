-- ===== src/Webhook/Handle/Answers.antt =====
-- What the answers of the webhook admit, each by itself.
use x_pdb.Prelude.{
  ℕ, ◌≡◌, refl, String, true, false, Option, none, some, arith, Error, msg, wrap, Result, ok, err,
  fault, ok_inj, subst,
}
use x_pdb.Api.{Pod, Xpdb}
use x_pdb.Webhook.{Request, Response, Config, Services, State, Admission, IsAdmission}
use x_pdb.Webhook.Handle.{
  answered, release, respond, handle_error, handle_not_allowed_disruption, accept,
}

module _ {W : Type 0} (services : Services W) (h : Config) where
  open services use {preactivities, get_xpdbs_for_pod, lock, budget, probe}

  module _ (admission : Admission) (law : IsAdmission admission) where
    pub answered-ok :
        (response r : Response) (x : Result (Unit {0}))
        → answered services admission h response x ≡ ok r
        → response ≡ r
    unfolding answered
    answered-ok response r (ok u) p = ok_inj p
    answered-ok response r (err e) p = ok_inj p
    answered-ok response r fault p = cc

    pub respond_denies :
        (m : Option Error) (c : Option ℕ) → (respond services admission h false m c).allowed ≡ false
    unfolding respond
    respond_denies m none = ground (arith, law.denies m)
    respond_denies m (some c) = ground (arith, law.denies m, law.fails c m)

    pub respond_admits : (respond services admission h true none none).allowed ≡ true
    unfolding respond
    respond_admits = ground (arith, law.admits none)

    pub handle_error_denies :
        (x : Option Xpdb) (d : String) (e : Error) (identity : String) (st : State W) (r : Response)
        → (handle_error services admission h x d e identity st).1 ≡ ok r
        → r.allowed ≡ false
    unfolding handle_error release
    handle_error_denies none d e identity st r p =
        ground (arith, respond_denies (some (wrap d e)) none)
    handle_error_denies (some x) d e identity st r p =
        subst (λ (q : Response). q.allowed ≡ false) (answered-ok _ r _ p)
          (respond_denies (some (wrap d e)) none)

    pub not_allowed_denies :
        (request : Request) (x : Option Xpdb) (pod : Pod) (identity m : String) (st : State W)
        (r : Response)
        → (handle_not_allowed_disruption services admission h request x pod identity m st).1 ≡ ok r
        → r.allowed ≡ false
    unfolding handle_not_allowed_disruption release
    not_allowed_denies request none pod identity m st r p =
        ground (arith, respond_denies (some (msg m)) (some 429))
    not_allowed_denies request (some x) pod identity m st r p =
        subst (λ (q : Response). q.allowed ≡ false) (answered-ok _ r _ p)
          (respond_denies (some (msg m)) (some 429))

    pub accept_admits :
        (xpdb : Xpdb) (pod : Pod) (st : State W)
        → (r : Response) × ((accept services admission h xpdb pod st).1 ≡ ok r) × (r.allowed ≡ true)
    unfolding accept
    accept_admits xpdb pod st = (respond services admission h true none none, refl, respond_admits)
