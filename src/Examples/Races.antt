-- ===== src/Examples/Races.antt =====
-- Requests whose calls interleave.
use x_pdb.Prelude.{
  put, ℕ, zero, suc, ◌+◌, ◌-◌, ◌≤◌, ◌<◌, ◌≡◌, refl, sym, ap, ◌∙◌, String, Bool, true, false, List,
  [], ◌∷◌, arith, msg, err,
}
use x_pdb.LeaseApi.Memory.{Memory, memory, held, memory-IsServer, memory-IsVersioned}
use x_pdb.Lease.{create_lease_name_for_selector}
use x_pdb.Lease.Keys.{same_key}
use x_pdb.Lock.Local.Safety.{lock_key}
use x_pdb.Lock.Local.Race.{Pc, holding, refused, asking, deleting, advance}
use x_pdb.Lock.Local.Race.System.{System, moved, wait, act, unlock, Reach, here, later, start}
use x_pdb.Lock.Local.Race.Facts.{lifetime, Regular, NamedIn}
use x_pdb.Lock.Local.Race.Exclusion.{Prompt, holding-NamedIn, mutual_exclusion}
use x_pdb.Examples.{names, selector, empty}

-- The request `n` is called by `n` letters.
unfoldable pub identity_of : ℕ → String
identity_of zero = ""
identity_of (suc n) = String.◌∷◌ "u" (identity_of n)

pub apart : (i j : ℕ) → identity_of i ≡ identity_of j → i ≡ j
unfolding identity_of
apart zero zero e = refl
apart zero (suc j) e = cc
apart (suc i) zero e = cc
apart (suc i) (suc j) e = ap suc (apart i j (cc))

pub regular : Regular held (λ s. s.revision) (lock_key names "x-pdb" "shop" selector) empty
regular l e = cc

abbrev Any : System Memory → ℕ → Type 0
Any s i = Unit

-- A step of the request `i`, whose clock is right.
abbrev pub turn : ℕ → System Memory → System Memory
turn i s = moved memory held (λ m. m.revision) names "x-pdb" "shop" selector identity_of s i s.now

-- A step of the request `i`, whose clock is behind by three seconds.
abbrev late_turn : ℕ → System Memory → System Memory
late_turn i s =
    moved memory held (λ m. m.revision) names "x-pdb" "shop" selector identity_of s i
      (s.now - 3_000_000)

-- No clock is ahead by more than a second.
abbrev pub ahead : ℕ
ahead = 1_000_000

abbrev pub Reachable : (System Memory → ℕ → Type 0) → System Memory → System Memory → Type 0
Reachable = Reach memory held (λ m. m.revision) names "x-pdb" "shop" selector identity_of ahead

abbrev pub first : System Memory
first = start 10_000_000 empty

unfoldable pub is_deleting : Pc → Bool
is_deleting (deleting time k) = true
is_deleting _ = false

-- A step that is no Delete is prompt.
extend :
    (s : System Memory) (i t : ℕ)
    → t ≤ s.now + ahead
    → is_deleting (s.pc i) ≡ false
    → Reachable (Prompt ahead) first s
    → Reachable
        (Prompt ahead)
        first
        (moved memory held (λ m. m.revision) names "x-pdb" "shop" selector identity_of s i t)
unfolding is_deleting
extend s i t b e r = later r (act i t b (λ t k p. let f = sym (ap is_deleting p) ∙ e in cc))

pub on_time :
    (s : System Memory) (i : ℕ)
    → is_deleting (s.pc i) ≡ false
    → Reachable (Prompt ahead) first s
    → Reachable (Prompt ahead) first (turn i s)
on_time s i e r = extend s i s.now (omega arith) e r

late :
    (s : System Memory)
    → is_deleting (s.pc 1) ≡ false
    → Reachable (Prompt ahead) first s
    → Reachable (Prompt ahead) first (late_turn 1 s)
late s e r = extend s 1 (s.now - 3_000_000) (omega arith) e r

abbrev stage : List ℕ → System Memory
stage [] = first
stage (i ∷ is) = turn i (stage is)

-- The request 0 obtains the lock, by a clock that is right. The clock of the request 1 is behind by
-- three seconds, and it is refused.
contended : System Memory
contended = late_turn 1 (late_turn 1 (late_turn 1 (late_turn 1 (turn 0 (turn 0 first)))))

reached : Reachable (Prompt ahead) first contended
unfolding contended advance memory same_key is_deleting create_lease_name_for_selector
reached =
    let two : Reachable (Prompt ahead) first (stage (0 ∷ 0 ∷ [])) =
      on_time (stage (0 ∷ [])) 0 refl (on_time first 0 refl here) in
    late (late_turn 1 (late_turn 1 (late_turn 1 (stage (0 ∷ 0 ∷ []))))) refl (
      late (late_turn 1 (late_turn 1 (stage (0 ∷ 0 ∷ [])))) refl
        (late (late_turn 1 (stage (0 ∷ 0 ∷ []))) refl (late (stage (0 ∷ 0 ∷ [])) refl two)))

won : contended.pc 0 ≡ holding 10_000_000
unfolding contended advance memory same_key create_lease_name_for_selector
won = refl

lost : contended.pc 1 ≡ refused (err (msg "lease deadline not reached"))
unfolding contended advance memory same_key create_lease_name_for_selector
lost = refl

fresh : contended.now + ahead < 10_000_000 + lifetime
unfolding contended
fresh = omega arith

holding-NamedIn_example :
    NamedIn held
      (λ s. s.revision)
      (lock_key names "x-pdb" "shop" selector)
      contended.store
      (identity_of 0)
      10_000_000
holding-NamedIn_example =
    holding-NamedIn memory held (λ s. s.revision) memory-IsServer memory-IsVersioned names "x-pdb"
      "shop" selector identity_of apart ahead regular reached 0 10_000_000 won fresh

mutual_exclusion_example : ◌≡◌ {A = ℕ} 0 0
mutual_exclusion_example =
    mutual_exclusion memory held (λ s. s.revision) memory-IsServer memory-IsVersioned names "x-pdb"
      "shop" selector identity_of apart ahead regular reached 0 0 10_000_000 10_000_000 won won
      fresh fresh

-- The request 0 begins to give its lock back, and reads that it holds it. Its lease runs out, and the
-- request 1 takes it over. Then the Delete of 0 removes the lease of 1, and the request 2 obtains the
-- lock, while the five seconds of 1 have only begun.
held_by_0 : System Memory
held_by_0 = turn 0 (turn 0 first)

begins : System Memory
begins = record held_by_0 { pc = put held_by_0.pc 0 (asking 10_000_000) }

asked : System Memory
asked = turn 0 begins

ran_out : System Memory
ran_out = record asked { now = asked.now + 5_000_000 }

overtaken : System Memory
overtaken = turn 1 (turn 1 (turn 1 (turn 1 (turn 1 (turn 1 ran_out)))))

two_holders : System Memory
two_holders = turn 2 (turn 2 (turn 0 overtaken))

then_go : {s : System Memory} (i : ℕ) → Reachable Any first s → Reachable Any first (turn i s)
then_go {s} i r = later r (act i s.now (omega arith) tt)

held_first : held_by_0.pc 0 ≡ holding 10_000_000
unfolding held_by_0 advance memory same_key create_lease_name_for_selector
held_first = refl

overtaking : Reachable Any first two_holders
unfolding held_by_0 begins asked ran_out overtaken two_holders
overtaking =
    let begun : Reachable Any first begins =
      later (then_go {s = turn 0 first} 0 (then_go {s = first} 0 here))
        (unlock 0 10_000_000 held_first) in
    let late : Reachable Any first ran_out =
      later (then_go {s = begins} 0 begun) (wait 5_000_000) in
    then_go {s = turn 2 (turn 0 overtaken)} 2 (
      then_go {s = turn 0 overtaken} 2 (
        then_go {s = overtaken} 0 (
          then_go 1
            (then_go 1 (then_go 1 (then_go 1 (then_go 1 (then_go {s = ran_out} 1 late))))))))

both_hold :
    (two_holders.pc 1 ≡ holding 15_000_000)
    × (two_holders.pc 2 ≡ holding 15_000_000)
    × (two_holders.now ≡ 15_000_000)
unfolding held_by_0 begins asked ran_out overtaken two_holders advance memory same_key
    create_lease_name_for_selector identity_of
both_hold = (refl, refl, refl)
