-- ===== src/Lease/Names.antt =====
-- The names of leases are names that Kubernetes accepts.
use x_pdb.Prelude.{
  ℕ, zero, suc, ◌≤◌, ◌≡◌, refl, ap, ◌⊎◌, String, List, [], ◌∷◌, ◌++◌, map, arith, length,
}
use x_pdb.Api.{LabelSelector}
use x_pdb.Lease.{Naming, take, trim_padding, to_lower, prefix, create_lease_name_for_selector}

abbrev pub All {ℓ} : (ℕ → Type ℓ) → List ℕ → Type ℓ
All P [] = Unit
All P (x ∷ xs) = P x × All P xs

-- The base32 alphabet, A-Z and 2-7.
abbrev pub IsDigit32 : ℕ → Type 0
IsDigit32 c = ((b'A' ≤ c) × (c ≤ b'Z')) ⊎ ((b'2' ≤ c) × (c ≤ b'7'))

-- Lower case letters, digits and the dash.
abbrev pub IsNameByte : ℕ → Type 0
IsNameByte c = ((b'a' ≤ c) × (c ≤ b'z')) ⊎ (((b'0' ≤ c) × (c ≤ b'9')) ⊎ (c ≡ b'-'))

-- RFC 4648: 24 bytes are 39 digits and one padding character; a SHA-256 sum has 32 bytes.
pub record IsStandard (names : Naming) : Type 0 where
  pub sum_length : (bs : List ℕ) → length (names.sha256 bs) ≡ 32
  pub encoding :
      (bs : List ℕ)
      → length bs ≡ 24
      → (digits : List ℕ) × (names.base32 bs ≡ digits ++ b'=' ∷ [])
        × (length digits ≡ 39)
        × All IsDigit32 digits

length-take : (n : ℕ) (xs : List ℕ) → n ≤ length xs → length (take n xs) ≡ n
length-take zero xs h = refl
length-take (suc n) [] h = elim h [ ]
length-take (suc n) (x ∷ xs) h = omega (arith, length-take n xs)

trim_padding_lem :
    (digits : List ℕ) → All IsDigit32 digits → trim_padding (digits ++ b'=' ∷ []) ≡ digits
unfolding trim_padding
trim_padding_lem [] h = refl
trim_padding_lem (c ∷ cs) h = ground (arith, trim_padding_lem cs h.1)

to_lower-IsNameByte : (cs : List ℕ) → All IsDigit32 cs → All IsNameByte (map to_lower cs)
unfolding to_lower
to_lower-IsNameByte [] h = tt
to_lower-IsNameByte (c ∷ cs) h = (ground arith, to_lower-IsNameByte cs h.1)

length-map : (f : ℕ → ℕ) (xs : List ℕ) → length (map f xs) ≡ length xs
length-map f [] = refl
length-map f (x ∷ xs) = ap suc (length-map f xs)

All-append : (P : ℕ → Type 0) (xs ys : List ℕ) → All P xs → All P ys → All P (xs ++ ys)
All-append P [] ys h k = k
All-append P (x ∷ xs) ys h k = (h.0, All-append P xs ys h.1 k)

-- The name of a lease has 44 bytes, each of them a lower case letter, a digit or a dash.
pub create_lease_name_for_selector-IsName :
    (names : Naming)
    → IsStandard names
    → (namespace : String) (selector : LabelSelector)
    → (length (create_lease_name_for_selector names namespace selector) ≡ 44)
      × All IsNameByte (create_lease_name_for_selector names namespace selector)
unfolding create_lease_name_for_selector
create_lease_name_for_selector-IsName names std namespace selector =
    let sum = names.sha256 (names.utf8 namespace ++ names.selector_string selector) in
    let (digits, e, n, h) = std.encoding (take 24 sum) (
      length-take 24 sum
        (omega (arith, std.sum_length (names.utf8 namespace ++ names.selector_string selector)))) in
    rw (e, trim_padding_lem digits h)
      (
        omega (arith, length-map to_lower digits, n),
        All-append IsNameByte prefix (map to_lower digits) (ground arith)
            (to_lower-IsNameByte digits h),
      )
