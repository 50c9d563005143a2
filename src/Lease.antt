-- ===== src/Lease.antt =====
-- internal/lock/leases.go: the lease that stands for the lock on the pods of a selector. Times are in
-- microseconds, the precision that a lease keeps (metav1.MicroTime). A name is the list of its bytes.
pub mod Names
pub mod Keys
use x_pdb.Prelude.{
  ℕ, ◌+◌, Bool, true, false, ◌&&◌, String, Option, some, List, [], ◌∷◌, ◌++◌, map, if◌then◌else◌,
  eqb, leb, zero, suc,
}
use x_pdb.Api.{LabelSelector}

-- coordinationv1.LeaseSpec, as far as x-pdb uses it. The API server admits positive durations only.
pub record LeaseSpec : Type 0 where
  pub holder_identity : Option String
  pub acquire_time : Option ℕ
  pub lease_duration_seconds : Option ℕ

-- What names a lease on the API server: client.ObjectKey.
pub record Key : Type 0 where
  pub namespace : String
  pub name : List ℕ

-- coordinationv1.Lease
pub record Lease : Type 0 where
  pub key : Key
  pub annotations : List (String × List ℕ)
  pub labels : List (String × String)
  pub resource_version : ℕ
  pub spec : LeaseSpec

-- crypto/sha256 and encoding/base32 on bytes, the generated method LabelSelector.String, and the
-- bytes of a text.
pub record Naming : Type 0 where
  pub sha256 : List ℕ → List ℕ
  pub base32 : List ℕ → List ℕ
  pub selector_string : LabelSelector → List ℕ
  pub utf8 : String → List ℕ

abbrev pub lease_annotation_namespace : String
lease_annotation_namespace = "xpdb.form3.tech/pod-namespace"

abbrev pub lease_annotation_selector : String
lease_annotation_selector = "xpdb.form3.tech/pod-selector"

abbrev pub lease_duration_seconds : ℕ
lease_duration_seconds = 5

abbrev null : List ℕ → Bool
null [] = true
null (_ ∷ _) = false

-- strings.TrimRight(s, "=")
trim_padding : List ℕ → List ℕ
trim_padding [] = []
trim_padding (c ∷ cs) =
    let rest = trim_padding cs in if null rest && eqb c b'=' then [] else c ∷ rest

-- strings.ToLower on one ASCII byte.
to_lower : ℕ → ℕ
to_lower c = if leb b'A' c && leb c b'Z' then c + 32 else c

abbrev pub take : ℕ → List ℕ → List ℕ
take zero xs = []
take (suc n) [] = []
take (suc n) (x ∷ xs) = x ∷ take n xs

-- "xpdb-"
abbrev prefix : List ℕ
prefix = b'x' ∷ b'p' ∷ b'd' ∷ b'b' ∷ b'-' ∷ []

module _ (names : Naming) where
  open names use {sha256, base32, selector_string, utf8}

  unfoldable pub create_lease_name_for_selector : String → LabelSelector → List ℕ
  unfolding trim_padding to_lower
  create_lease_name_for_selector namespace selector =
      let lease_hash_bytes = sha256 (utf8 namespace ++ selector_string selector) in
      let prefix_str = map to_lower (trim_padding (base32 (take 24 lease_hash_bytes))) in
      prefix ++ prefix_str

  -- `now` is the clock's reading in the call. The API server gives a new lease its version.
  unfoldable pub create_lease_for_selector : ℕ → String → String → String → LabelSelector → Lease
  create_lease_for_selector now lease_namespace lease_holder_identity namespace selector = record {
    key = record {
      namespace = lease_namespace;
      name = create_lease_name_for_selector namespace selector;
    };
    annotations =
        (lease_annotation_namespace, utf8 namespace)
        ∷ (lease_annotation_selector, selector_string selector)
        ∷ [];
    labels = ("app", "x-pdb") ∷ [];
    resource_version = 0;
    spec = record {
      holder_identity = some lease_holder_identity;
      acquire_time = some now;
      lease_duration_seconds = some lease_duration_seconds;
    };
  }
