-- ===== src/TestPrograms.antt =====
-- The two programs of the integration tests, under cmd: a disruption probe and an application, each of
-- which answers what a ConfigMap tells it to.
pub mod DisruptionProbe
pub mod App
use x_pdb.Prelude.{String, Option, none, some, List, [], ◌∷◌, ◌==◌, if◌then◌else◌}
use x_pdb.Api.{Labels}

-- The data of a ConfigMap under a key.
abbrev pub data_at : String → Labels → Option String
data_at k [] = none
data_at k ((j, v) ∷ m) = if j == k then some v else data_at k m

-- `cm.Data[k]`, which is empty where the key is missing.
abbrev pub or_empty : Option String → String
or_empty none = ""
or_empty (some v) = v
