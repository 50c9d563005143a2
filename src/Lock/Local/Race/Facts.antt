-- ===== src/Lock/Local/Race/Facts.antt =====
-- What is known of a request and of the lease, by where the request stands.
use x_pdb.Prelude.{
  ℕ, ◌+◌, ◌*◌, ◌≤◌, ◌<◌, ◌≡◌, sym, ap, ◌∙◌, subst, some_inj, ◌≢◌, ◌⊎◌, inl, inr, String, Option,
  none, some, arith,
}
use x_pdb.Lease.{Lease, Key, lease_duration_seconds}
use x_pdb.Lock.Local.{second}
use x_pdb.Lock.Local.Verdict.{Expired}
use x_pdb.Lock.Local.Race.{
  Pc, starting, creating, reading, found, expired, updating, holding, refused, asking, deleting,
  released,
}

-- The length of a lock, in microseconds.
abbrev pub lifetime : ℕ
lifetime = second * lease_duration_seconds

module _ {Store : Type 0} (holds : Store → Key → Option Lease) (revision : Store → ℕ)
    (key : Key) where
  -- A lease that was read: where the server has a lease of the same version, it says the same.
  abbrev pub Read : Store → Lease → Type 0
  Read s l =
      (l.key ≡ key)
      × (l.resource_version ≤ revision s)
      × ((c : Lease)
          → holds s key ≡ some c
          → c.resource_version ≡ l.resource_version
          → c.spec ≡ l.spec)

  abbrev pub NamedIn : Store → String → ℕ → Type 0
  NamedIn s identity time =
      (l : Lease) × (holds s key ≡ some l)
      × (l.spec.holder_identity ≡ some identity)
      × (l.spec.acquire_time ≡ some time)

  -- Until it runs out, the lease names the request that obtained it.
  abbrev pub Claim : ℕ → Store → String → ℕ → Type 0
  Claim now s identity time = now < time + lifetime → NamedIn s identity time

  abbrev pub Known : ℕ → Store → String → Pc → Type 0
  Known now s identity starting = Unit
  Known now s identity (creating time) = Unit
  Known now s identity reading = Unit
  Known now s identity (found l) = Read s l
  Known now s identity (expired l) = Read s l × Expired now l
  Known now s identity (updating l time) = Read s l × Expired now l
  Known now s identity (holding time) = Claim now s identity time
  Known now s identity (refused r) = Unit
  Known now s identity (asking time) = Claim now s identity time
  Known now s identity (deleting time k) = Claim now s identity time × (k ≡ key)
  Known now s identity (released r) = Unit

  -- Every lock lasts for five seconds, and no version is above the last one given.
  abbrev pub Regular : Store → Type 0
  Regular s =
      (l : Lease)
      → holds s key ≡ some l
      → (l.spec.lease_duration_seconds ≡ some lease_duration_seconds)
        × (l.resource_version ≤ revision s)

  -- What a step does to the lease: nothing, or it writes one where there was none or a run-out one, or
  -- it removes the lease of the request that takes the step.
  abbrev pub Kept : Store → Store → Type 0
  Kept s t = holds t key ≡ holds s key

  abbrev pub Wrote : ℕ → Store → Store → Type 0
  Wrote now s t =
      (m : Lease) × (holds t key ≡ some m)
      × (revision s < m.resource_version)
      × (m.resource_version ≤ revision t)
      × (m.spec.lease_duration_seconds ≡ some lease_duration_seconds)
      × ((l : Lease) → holds s key ≡ some l → Expired now l)

  abbrev pub Removed : String → Store → Store → Type 0
  Removed identity s t =
      (holds t key ≡ none)
      × ((l : Lease) → holds s key ≡ some l → l.spec.holder_identity ≡ some identity)

  abbrev pub Effect : ℕ → String → Store → Store → Type 0
  Effect now identity s t =
      (revision s ≤ revision t) × (Kept s t ⊎ (Wrote now s t ⊎ Removed identity s t))

  -- The effect of a step and what is known after it.
  abbrev pub Ends : ℕ → String → Store → Store × Pc → Type 0
  Ends now identity s (t, p) = Effect now identity s t × Known now t identity p

  pub Effect-Regular :
      (now : ℕ) (identity : String) (s t : Store) → Effect now identity s t → Regular s → Regular t
  Effect-Regular now identity s t (up, inl same) regular l h =
      let (d, v) = regular l (sym same ∙ h) in (d, omega arith)
  Effect-Regular now identity s t (up, inr (inl (m, at, lower, upper, d, free))) regular l h =
      let e : m ≡ l = some_inj (sym at ∙ h) in
      subst
        (λ (x : Lease).
          (x.spec.lease_duration_seconds ≡ some lease_duration_seconds)
          × (x.resource_version ≤ revision t))
        e (d, upper)
  Effect-Regular now identity s t (up, inr (inr (gone, own))) regular l h = cc

  -- Time that passes.
  pub Known-later :
      (now d : ℕ) (s : Store) (identity : String) (p : Pc)
      → Known now s identity p
      → Known (now + d) s identity p
  Known-later now d s identity starting k = tt
  Known-later now d s identity (creating time) k = tt
  Known-later now d s identity reading k = tt
  Known-later now d s identity (found l) k = k
  Known-later now d s identity (expired l) (r, (a, n, e, f, h)) = (r, (a, n, e, f, omega arith))
  Known-later now d s identity (updating l time) (r, (a, n, e, f, h)) =
      (r, (a, n, e, f, omega arith))
  Known-later now d s identity (holding time) k = λ h. k (omega arith)
  Known-later now d s identity (refused r) k = tt
  Known-later now d s identity (asking time) k = λ h. k (omega arith)
  Known-later now d s identity (deleting time q) (k, e) = ((λ h. k (omega arith)), e)
  Known-later now d s identity (released r) k = tt

  Effect-Read :
      (now : ℕ) (other : String) (s t : Store) (l : Lease)
      → Effect now other s t
      → Read s l
      → Read t l
  Effect-Read now other s t l (up, inl same) (e, v, r) =
      (e, omega arith, λ c h q. r c (sym same ∙ h) q)
  Effect-Read now other s t l (up, inr (inl (m, at, lower, upper, d, free))) (e, v, r) =
      (e, omega arith, λ c h q. absurd (newer c h q))
    where
      newer : (c : Lease) → holds t key ≡ some c → c.resource_version ≡ l.resource_version → ⊥
      newer c h q =
          let f = ap (λ (x : Lease). x.resource_version) (some_inj (sym at ∙ h)) in omega arith
  Effect-Read now other s t l (up, inr (inr (gone, own))) (e, v, r) = (e, omega arith, λ c h q. cc)

  Effect-Claim :
      (now : ℕ) (other identity : String) (s t : Store) (time : ℕ)
      → other ≢ identity
      → Regular s
      → Effect now other s t
      → Claim now s identity time
      → Claim now t identity time
  Effect-Claim now other identity s t time n regular (up, inl same) claim fresh =
      let (l, h, o, a) = claim fresh in (l, same ∙ h, o, a)
  Effect-Claim now other identity s t time n regular (up, inr (inl (m, at, lower, upper, d, free)))
        claim fresh =
      let (l, h, o, a) = claim fresh in
      let (b, e, p, q, over) = free l h in
      let (d', v) = regular l h in
      let same_time : b ≡ time = some_inj (sym p ∙ a) in
      let same_length : e ≡ lease_duration_seconds = some_inj (sym q ∙ d') in absurd (omega arith)
  Effect-Claim now other identity s t time n regular (up, inr (inr (gone, own))) claim fresh =
      let (l, h, o, a) = claim fresh in absurd (n (some_inj (sym (own l h) ∙ o)))

  -- What is known of a request stays so when another one takes a step.
  pub Effect-Known :
      (now : ℕ) (other identity : String) (s t : Store) (p : Pc)
      → other ≢ identity
      → Regular s
      → Effect now other s t
      → Known now s identity p
      → Known now t identity p
  Effect-Known now other identity s t starting n g e k = tt
  Effect-Known now other identity s t (creating time) n g e k = tt
  Effect-Known now other identity s t reading n g e k = tt
  Effect-Known now other identity s t (found l) n g e k = Effect-Read now other s t l e k
  Effect-Known now other identity s t (expired l) n g e (r, x) =
      (Effect-Read now other s t l e r, x)
  Effect-Known now other identity s t (updating l time) n g e (r, x) =
      (Effect-Read now other s t l e r, x)
  Effect-Known now other identity s t (holding time) n g e k =
      Effect-Claim now other identity s t time n g e k
  Effect-Known now other identity s t (refused r) n g e k = tt
  Effect-Known now other identity s t (asking time) n g e k =
      Effect-Claim now other identity s t time n g e k
  Effect-Known now other identity s t (deleting time q) n g e (k, f) =
      (Effect-Claim now other identity s t time n g e k, f)
  Effect-Known now other identity s t (released r) n g e k = tt
