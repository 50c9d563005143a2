-- ===== src/LeaseApi/Memory.antt =====
-- A server in memory, which shows that the laws can be met: a table, and the last version given.
use x_pdb.Prelude.{
  ℕ, ◌+◌, refl, Option, none, some, eqb, if◌then◌else◌, arith, Error, not_found, already_exists,
  msg, Result, ok, err, Option-cases, Bool-cases, inl, inr,
}
use x_pdb.Lease.{Key, Lease}
use x_pdb.Lease.Keys.{same_key, same_key_iff}
use x_pdb.LeaseApi.{LeaseApi, IsServer, IsAvailable, IsVersioned}

pub record Memory : Type 0 where
  pub revision : ℕ
  pub table : Key → Option Lease

abbrev put : Memory → Key → Option Lease → Memory
put s k o = record { revision = s.revision + 1; table = λ j. if same_key k j then o else s.table j }

-- A lease as it is written: with a new version.
abbrev stamped : Memory → Lease → Lease
stamped s l = record l { resource_version = s.revision + 1 }

create_at : Memory → Lease → Option Lease → Memory × Option Error
create_at s l none = (put s l.key (some (stamped s l)), none)
create_at s l (some _) = (s, some already_exists)

get_at : Key → Option Lease → Result Lease
get_at k none = err not_found
get_at k (some l) = ok (record l { key = k })

update_at : Memory → Lease → Option Lease → Memory × Option Error
update_at s l none = (s, some not_found)
update_at s l (some c) =
    if eqb c.resource_version l.resource_version
    then (put s l.key (some (stamped s l)), none)
    else (s, some (msg "the object has been modified"))

delete_at : Memory → Key → Option Lease → Memory × Option Error
delete_at s k none = (s, some not_found)
delete_at s k (some _) = (put s k none, none)

unfoldable pub memory : LeaseApi Memory
unfolding create_at get_at update_at delete_at
memory = record {
  create = λ s l. create_at s l (s.table l.key);
  get = λ s k. get_at k (s.table k);
  update = λ s l. update_at s l (s.table l.key);
  delete = λ s k. delete_at s k (s.table k);
}

abbrev at_key : Key → Option Lease → Option Lease
at_key k none = none
at_key k (some l) = some (record l { key = k })

abbrev pub held : Memory → Key → Option Lease
held s k = at_key k (s.table k)

pub memory-IsAvailable : IsAvailable memory held
unfolding memory
memory-IsAvailable = record {
  create_free = λ s l h. ground arith;
  create_taken = λ s l m h. ground arith;
  get_held = λ s k l h. ground arith;
  get_absent = λ s k h. ground arith;
  update_current = λ s l c h v. ground arith;
  delete_held = λ s k l h. ground arith;
}

pub memory-IsServer : IsServer memory held
unfolding memory
memory-IsServer = record {
  create_done = λ s l h. elim (Option-cases (s.table l.key)) [
    | inl e ↦ (rw e, (stamped s l, ground (arith, same_key_iff l.key l.key), refl))
    | inr (c, e) ↦ absurd (ground arith)
  ];
  create_exists = λ s l e h x. ground arith;
  create_unsure = λ s l e h. inl (ground arith);
  create_other = λ s l k n. ground (arith, same_key_iff l.key k);
  get_done = λ s k l h. ground arith;
  get_missing = λ s k e h n. ground arith;
  get_returns = λ s k h. ground arith;
  update_done = λ s l h. elim (Option-cases (s.table l.key)) [
    | inl e ↦ absurd (ground arith)
    | inr (c, e) ↦ (
      (record c { key = l.key }, rw e, ground arith),
      (stamped s l, ground (arith, same_key_iff l.key l.key), refl),
    )
  ];
  update_unsure = λ s l e h. inl (ground arith);
  update_other = λ s l k n. ground (arith, same_key_iff l.key k);
  delete_done = λ s k h. ground (arith, same_key_iff k k);
  delete_unsure = λ s k e h. inl (ground arith);
  delete_other = λ s k j n. ground (arith, same_key_iff k j);
}

pub memory-IsVersioned : IsVersioned memory held (λ s. s.revision)
unfolding memory
memory-IsVersioned = record {
  create_version = λ s l m h e. ground (arith, same_key_iff l.key l.key);
  update_version = λ s l m e. elim (Option-cases (s.table l.key)) [
    | inl free ↦ inl (ground arith)
    | inr (c, at) ↦ elim (Bool-cases (eqb c.resource_version l.resource_version)) [
      | inl same ↦ inr (ground (arith, same_key_iff l.key l.key))
      | inr other ↦ inl (ground arith)
    ]
  ];
  create_revision = λ s l. ground arith;
  update_revision = λ s l. ground arith;
  delete_revision = λ s k. ground arith;
}
