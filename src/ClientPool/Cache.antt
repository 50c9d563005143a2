-- ===== src/ClientPool/Cache.antt =====
-- The pool keeps one client for each endpoint.
use x_pdb.Prelude.{
  ◌≡◌, ◌≢◌, inl, inr, String, none, some, List, [], ◌∷◌, eq_iff, arith, Result, ok, Option-cases,
  Result-cases,
}
use x_pdb.ClientPool.{Clients, lookup, get}

module _ {W Client : Type 0} (new : W → String → W × Result Client) where
  -- The state after a row of calls.
  pub gets : W → Clients Client → List String → W × Clients Client
  gets w clients [] = (w, clients)
  gets w clients (e ∷ es) = let r = get new w clients e in gets r.0 r.1 es

  -- A client that is in the pool stays.
  get-lookup :
      (w : W) (clients : Clients Client) (e k : String) (c : Client)
      → lookup k clients ≡ some c
      → lookup k (get new w clients e).1 ≡ some c
  unfolding get
  get-lookup w clients e k c h = elim (Option-cases (lookup e clients)) [
    | inl miss ↦ elim (Result-cases (new w e).1) [
      | inl (d, p) ↦ ground (arith, eq_iff e k)
      | inr (inl (x, p)) ↦ ground arith
      | inr (inr p) ↦ ground arith
    ]
    | inr (d, hit) ↦ ground arith
  ]

  gets-lookup :
      (w : W) (clients : Clients Client) (es : List String) (k : String) (c : Client)
      → lookup k clients ≡ some c
      → lookup k (gets w clients es).1 ≡ some c
  unfolding gets
  gets-lookup w clients [] k c h = h
  gets-lookup w clients (e ∷ es) k c h =
      gets-lookup (get new w clients e).0 (get new w clients e).1 es k c
        (get-lookup w clients e k c h)

  get-stores :
      (w : W) (clients : Clients Client) (e : String) (c : Client)
      → (get new w clients e).2 ≡ ok c
      → lookup e (get new w clients e).1 ≡ some c
  unfolding get
  get-stores w clients e c h = ground (arith, eq_iff e e)

  -- A client that Get returned for an endpoint is what every later call for that endpoint returns,
  -- whatever is asked of the pool in between, and then no client is made and the pool stays as it is.
  pub get_again :
      (w : W) (clients : Clients Client) (e : String) (c : Client) (es : List String)
      → (get new w clients e).2 ≡ ok c
      → (v : W)
      → let later = (gets (get new w clients e).0 (get new w clients e).1 es).1 in
        get new v later e ≡ (v, later, ok c)
  unfolding get
  get_again w clients e c es h v = ground (
    arith,
    gets-lookup (get new w clients e).0 (get new w clients e).1 es e c (get-stores w clients e c h),
  )

  -- A call that fails leaves the pool as it was, so that the next one tries again.
  pub get_fails :
      (w : W) (clients : Clients Client) (e : String)
      → ((c : Client) → (get new w clients e).2 ≢ ok c)
      → (lookup e clients ≡ none) × (get new w clients e ≡ ((new w e).0, clients, (new w e).1))
  unfolding get
  get_fails w clients e h = elim (Option-cases (lookup e clients)) [
    | inl miss ↦ elim (Result-cases (new w e).1) [
      | inl (d, p) ↦ absurd (h d (ground arith))
      | inr (inl (x, p)) ↦ (miss, ground arith)
      | inr (inr p) ↦ (miss, ground arith)
    ]
    | inr (d, hit) ↦ absurd (h d (ground arith))
  ]
