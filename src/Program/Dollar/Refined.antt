-- ===== src/Program/Dollar/Refined.antt =====
-- That the program implements the promise.
use plott.Common.{◌≡◌, none, some, Option, arith, List, [], ◌∷◌}
use plott.Runtime.{Runtime}
use plott.Admin.Validated.{initialize-ledger}
use plott.Program.World.{World}
use plott.Program.Step.Sound.{execute-Step}
use plott.Program.Reach.{Reachable, launched, stepped, elsewhere, launch_lem}
use plott.Program.Dollar.{Dollar, Order, follow, play, dollar_of}
use plott.Program.Dollar.Balance.{IsBalanced, play-IsBalanced}
use plott.Program.Dollar.Orders.{order_of, Step-follow}

abbrev noted : Option Order → List Order → List Order
noted none orders = orders
noted (some o) orders = o ∷ orders

noted-play :
    (o : Option Order) (orders : List Order) (s t : Dollar)
    → play orders ≡ some s
    → follow o s ≡ some t
    → play (noted o orders) ≡ some t
unfolding play
noted-play none orders s t played followed = ground (arith, played, followed)
noted-play (some o) orders s t played followed = rw played followed

module _ {T : Type 0} (rt : Runtime T) where
  -- The orders of the instructions by which the program has come to a world, newest first.
  abbrev pub orders_of : {w : World T} → Reachable rt w → List Order
  orders_of (launched clock ctx params tokens h) = []
  orders_of (stepped {v} {w} clock instruction before done) =
      noted (order_of instruction v w) (orders_of before)
  orders_of (elsewhere tokens before kept) = orders_of before

  played :
      (w : World T) (reach : Reachable rt w) → play (orders_of reach) ≡ some (dollar_of w.config)
  unfolding play
  played w (launched clock ctx params tokens h) =
      let (d, k, e) = launch_lem rt clock ctx params tokens w h in
      let l = initialize-ledger rt tokens clock ctx params d k in rw e (ground (arith, l))
  played w (stepped {v} clock instruction before done) =
      noted-play (order_of instruction v w) (orders_of before) (dollar_of v.config)
        (dollar_of w.config) (played v before)
        (Step-follow rt clock v w (execute-Step rt clock v w instruction done))
  played w (elsewhere {w = v} tokens before kept) = played v before

  -- However the program has come to a world, from `initialize` on and among transactions of other programs: the
  -- orders that its instructions were, one after the other, are orders that the promise accepts, and
  -- leave it with the program's own counts. A request lodges or asks for the amount that its caller
  -- names; a confirmation issues against or pays for the amount that its request holds; a
  -- cancellation gives that amount back; and no other instruction is an order. So the collateral in
  -- escrow and behind the issue is all that was lodged, less what was given back or paid; the dollars
  -- that are issued are all that were minted, less those that were burned; and no more wait to be
  -- redeemed.
  pub Reachable-play :
      (w : World T) (reach : Reachable rt w)
      → (play (orders_of reach) ≡ some (dollar_of w.config))
        × IsBalanced (orders_of reach) (dollar_of w.config)
  Reachable-play w reach =
      (played w reach, play-IsBalanced (orders_of reach) (dollar_of w.config) (played w reach))
