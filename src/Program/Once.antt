-- ===== src/Program/Once.antt =====
-- That an address holds one account, in every world that the program can reach. The children show that a
-- request is therefore settled once.
pub mod Mint
pub mod Redeem
use plott.Common.{◌≤◌, arith}
use plott.Runtime.{Runtime}
use plott.Program.World.{World}
use plott.Program.Keyed.{IsKeyed, Step-IsKeyed}
use plott.Program.Step.Sound.{execute-Step}
use plott.Program.Reach.{Reachable, launched, stepped, elsewhere, launch_lem}

module _ {T : Type 0} (rt : Runtime T) where
  -- In every world that the program can reach, no two accounts of a kind have one key: a keeper has one
  -- account, an owner one position, and a user and a nonce one mint and one redeem request.
  pub Reachable-IsKeyed :
      (w : World T)
      → Reachable rt w
      → IsKeyed w.keepers w.mint_requests w.redeem_requests w.positions
  Reachable-IsKeyed w (launched clock ctx params tokens h) =
      let (d, k, e) = launch_lem rt clock ctx params tokens w h in
      rw e (record {
        one_keeper = λ key. omega arith;
        one_mint = λ user nonce. omega arith;
        one_redeem = λ user nonce. omega arith;
        one_position = λ owner. omega arith;
      })
  Reachable-IsKeyed w (stepped {v} clock instruction before done) =
      Step-IsKeyed rt clock v (Reachable-IsKeyed v before) w
        (execute-Step rt clock v w instruction done)
  Reachable-IsKeyed w (elsewhere {w = v} tokens before kept) = Reachable-IsKeyed v before
