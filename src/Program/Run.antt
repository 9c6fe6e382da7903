-- ===== src/Program/Run.antt =====
-- A history of transactions, one instruction of programs/poyz/src/lib.rs each.
use plott.Common.{ok, err, Result-cases, inl, inr, List, [], ◌∷◌}
use plott.Runtime.{Runtime, Clock}
use plott.Program.World.{World}
use plott.Program.Execute.{Instruction, execute}
use plott.Program.Reach.{Reachable, stepped}

pub record Transaction : Type 0 where
  pub clock : Clock
  pub instruction : Instruction

module _ {T : Type 0} (rt : Runtime T) where
  -- The runtime undoes what a failed transaction has written.
  unfoldable pub apply : Transaction → World T → World T
  apply t w = elim (execute rt t.clock t.instruction w) [ ok w' ↦ w' | err fault ↦ w ]

  -- The first transaction of the list is the first to run.
  unfoldable pub run : List Transaction → World T → World T
  run [] w = w
  run (t ∷ ts) w = run ts (apply t w)

  apply-Reachable : (t : Transaction) (w : World T) → Reachable rt w → Reachable rt (apply t w)
  unfolding apply
  apply-Reachable t w reach = elim (Result-cases (execute rt t.clock t.instruction w)) [
    | inl (w', e) ↦ rw (apply, e) (stepped t.clock t.instruction reach e)
    | inr (f, e) ↦ rw (apply, e) reach
  ]

  -- Whatever transactions run, in whatever order and at whatever times, those that fail included, the
  -- program stays among the worlds that it can reach.
  pub run-Reachable :
      (ts : List Transaction) (w : World T) → Reachable rt w → Reachable rt (run ts w)
  unfolding run
  run-Reachable [] w reach = reach
  run-Reachable (t ∷ ts) w reach = run-Reachable ts (apply t w) (apply-Reachable t w reach)
