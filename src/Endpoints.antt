-- ===== src/Endpoints.antt =====
-- cmd/controller/main.go: the list of the remote endpoints, as parseEndpoints reads it from a flag.
pub mod Parse
use Prim.Native.String.{len, slice}
use x_pdb.Prelude.{String, Bool, true, false, List, [], ◌∷◌, ◌==◌, if◌then◌else◌, Error, msg}

-- strings.Split at commas and strings.TrimSpace.
pub record Texts : Type 0 where
  pub split : String → List String
  pub trim_space : String → String

module _ (texts : Texts) where
  open texts use {split, trim_space}

  -- The loop over the parts: the endpoints and the errors.
  pub read_parts : List String → List String × List Error
  read_parts [] = ([], [])
  read_parts (ep ∷ split_endpoints) =
      let (endpoints, errs) = read_parts split_endpoints in
      if trim_space ep == ""
      then (endpoints, msg "endpoint cannot be empty" ∷ errs)
      else (trim_space ep ∷ endpoints, errs)

  abbrev is_blank : List String → Bool
  is_blank [] = false
  is_blank (s ∷ []) = s == ""
  is_blank (_ ∷ _ ∷ _) = false

  -- The endpoints that are returned, and the errors that are joined; there are none on success.
  unfoldable pub parse_endpoints : String → List String × List Error
  unfolding read_parts
  parse_endpoints endpoint_string =
      let split_endpoints = split endpoint_string in
      if is_blank split_endpoints then ([], []) else read_parts split_endpoints
