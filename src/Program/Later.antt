-- ===== src/Program/Later.antt =====
-- What may happen after a transaction: any instructions but some, at any times, among transactions of other
-- programs.
pub mod Mint
pub mod Redeem
use plott.Common.{◌≡◌, Bool, false, ok}
use plott.Runtime.{Runtime, Clock}
use plott.Program.World.{World}
use plott.Program.Execute.{Instruction, execute}

pub data Later {T : Type 0} (rt : Runtime T) (left_out : Instruction → Bool) (u : World T)
    : World T → Type 0 where
  now : Later rt left_out u u
  followed :
      {v w : World T} (clock : Clock) (instruction : Instruction)
      → Later rt left_out u v
      → left_out instruction ≡ false
      → execute rt clock instruction v ≡ ok w
      → Later rt left_out u w
  meanwhile :
      {v : World T} (tokens : T)
      → Later rt left_out u v
      → Later rt left_out u (record v { tokens = tokens })
