-- ===== src/Program/Invariant.antt =====
-- What holds in every world that the program can reach: the books agree with the accounts, and every vault
-- covers what the program owes there.
use plott.Common.{◌≤◌, ◌≡◌, ok, arith}
use plott.Runtime.{Runtime, Clock, Vault, vault}
use plott.Runtime.Laws.{TokenLaws}
use plott.Admin.Params.{InitializeParams}
use plott.Admin.Accounts.{InitializeCtx}
use plott.Admin.Validated.{initialize-ledger}
use plott.Program.World.{World}
use plott.Program.Execute.{launch}
use plott.Program.Owed.{owed_by}
use plott.Program.Booked.{IsBooked}
use plott.Program.Booked.Steps.{Step-IsBooked}
use plott.Program.Owed.Steps.{Step-owed}
use plott.Program.Step.Sound.{execute-Step}
use plott.Program.Reach.{Reachable, launched, stepped, elsewhere, launch_lem}

module _ {T : Type 0} (rt : Runtime T) where
  -- Every vault covers what the program owes there.
  abbrev pub IsSolvent : World T → Type 0
  IsSolvent w = (v : Vault) → owed_by w v ≤ rt.balance w.tokens (vault v)

  launch-IsBooked :
      (clock : Clock) (ctx : InitializeCtx) (params : InitializeParams) (tokens : T) (w : World T)
      → launch rt clock ctx params tokens ≡ ok w
      → IsBooked w
  launch-IsBooked clock ctx params tokens w h =
      let (d, k, e) = launch_lem rt clock ctx params tokens w h in
      let l = initialize-ledger rt tokens clock ctx params d k in
      rw e (record {
        mints = ground (arith, l);
        redeems = ground (arith, l);
        covered = ground (arith, l);
        bonded = ground (arith, l);
        slashed = ground (arith, l);
        active = ground (arith, l);
        staked = ground (arith, l);
      })

  launch-IsSolvent :
      (clock : Clock) (ctx : InitializeCtx) (params : InitializeParams) (tokens : T) (w : World T)
      → launch rt clock ctx params tokens ≡ ok w
      → IsSolvent w
  launch-IsSolvent clock ctx params tokens w h v =
      let (d, k, e) = launch_lem rt clock ctx params tokens w h in
      let l = initialize-ledger rt tokens clock ctx params d k in rw e (ground (arith, l))

  -- In every world that the program can reach, the config's counts are the sums over the accounts: the
  -- escrowed collateral over the open mint requests, the synthetic in flight over the open redeem
  -- requests, the bonds, the slashes and the active keepers over the keepers, and the stake over
  -- the positions; and what is in flight is no more than what is issued.
  pub Reachable-IsBooked : (w : World T) → Reachable rt w → IsBooked w
  Reachable-IsBooked w (launched clock ctx params tokens h) =
      launch-IsBooked clock ctx params tokens w h
  Reachable-IsBooked w (stepped {v} clock instruction before done) =
      Step-IsBooked rt clock v (Reachable-IsBooked v before) w
        (execute-Step rt clock v w instruction done)
  Reachable-IsBooked w (elsewhere {w = v} tokens before kept) =
      let b = Reachable-IsBooked v before in
      record {
        mints = b.mints;
        redeems = b.redeems;
        covered = b.covered;
        bonded = b.bonded;
        slashed = b.slashed;
        active = b.active;
        staked = b.staked;
      }

  -- With a token program that keeps its promises (Runtime/Laws): in every world that the program can
  -- reach, each of the seven vaults holds at least what the program owes there. The collateral
  -- vault covers the collateral and the escrow of the mint requests, the bond vaults the bonds and
  -- the slashes, the funding and the buffer vault their counts, the stake vault the principal of
  -- the positions, and the redeem escrow what is in flight.
  pub Reachable-IsSolvent :
      TokenLaws rt
      → (w : World T) → Reachable rt w
      → (v : Vault) → owed_by w v ≤ rt.balance w.tokens (vault v)
  Reachable-IsSolvent laws w (launched clock ctx params tokens h) =
      launch-IsSolvent clock ctx params tokens w h
  Reachable-IsSolvent laws w (stepped {v} clock instruction before done) = λ x.
      let held = Reachable-IsSolvent laws v before x in
      omega
        (arith, held, Step-owed rt laws clock v w (execute-Step rt clock v w instruction done) x)
  Reachable-IsSolvent laws w (elsewhere {w = v} tokens before kept) =
      λ x. let held = Reachable-IsSolvent laws v before x in omega (arith, held, kept x)
