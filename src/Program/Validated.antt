-- ===== src/Program/Validated.antt =====
-- That the parameters stay within the bounds of programs/poyz/src/state.rs.
use plott.Common.{◌≡◌, arith}
use plott.State.{Config}
use plott.State.Settings.{settings_of}
use plott.Runtime.{Runtime, Clock}
use plott.Keepers.Tracked.{
  keeper_register-Tracked, keeper_bond-Tracked, keeper_unbond-Tracked, keeper_slash-Tracked,
}
use plott.Keepers.Books.{Tracked-settings}
use plott.Proof.Books.{commit_rebalance_proof-settings}
use plott.Mint.Books.{mint_request-settings, mint_confirm-settings, mint_cancel-settings}
use plott.Redeem.Books.{redeem_request-settings, redeem_confirm-settings, redeem_cancel-settings}
use plott.Funding.Books.{
  settle_funding-settings, stake-settings, request_unstake-settings, claim_funding-settings,
}
use plott.Funding.Stakes.{unstake_paid}
use plott.Buffer.Books.{buffer_deposit-settings, buffer_withdraw-settings}
use plott.Admin.Validated.{IsValidated, initialize-IsValidated}
use plott.Admin.Books.{IsValidated-bounds}
use plott.Program.Store.{find}
use plott.Program.World.{World, is_position}
use plott.Program.Execute.{Instruction, or_new}
use plott.Program.Administer.Kept.{administer-Kept}
use plott.Program.Step.{Step}
use plott.Program.Step.Sound.{execute-Step}
use plott.Program.Reach.{Reachable, launched, stepped, elsewhere, launch_lem}

module _ {T : Type 0} (rt : Runtime T) (clock : Clock) (w : World T)
    (valid : IsValidated w.config) where
  unset-IsValidated : (c : Config) → settings_of c ≡ settings_of w.config → IsValidated c
  unset-IsValidated c same = IsValidated-bounds w.config c (ground (arith, same)) valid

  Step-IsValidated : (w' : World T) {i : Instruction} → Step rt clock w w' i → IsValidated w'.config
  Step-IsValidated w' (Step.administered change c k e) =
      rw e ((administer-Kept rt w.tokens clock w.keepers w.config change c k).valid valid)
  Step-IsValidated w' (Step.keeper_registered ctx amount d e0 k e) = rw e (
      unset-IsValidated d.config (
        Tracked-settings (
          keeper_register-Tracked rt w.tokens clock (record ctx { config = w.config }) amount d k)))
  Step-IsValidated w' (Step.keeper_bonded ctx amount keeper d e0 k e) = rw e (
      unset-IsValidated d.config (
        Tracked-settings (
          keeper_bond-Tracked rt w.tokens clock
            (record ctx { config = w.config; keeper_account = keeper }) amount d k)))
  Step-IsValidated w' (Step.keeper_unbonded ctx amount keeper d e0 k e) = rw e (
      unset-IsValidated d.config (
        Tracked-settings (
          keeper_unbond-Tracked rt w.tokens clock
            (record ctx { config = w.config; keeper_account = keeper }) amount d k)))
  Step-IsValidated w' (Step.keeper_slashed ctx amount reason evidence keeper d e0 k e) = rw e (
      unset-IsValidated d.config (
        Tracked-settings (
          keeper_slash-Tracked rt w.tokens clock
            (record ctx { config = w.config; keeper_account = keeper }) amount reason evidence d
            k)))
  Step-IsValidated w' (Step.proof_committed ctx claim keeper d e0 e1 k e) = rw e (
      unset-IsValidated d.config (
        commit_rebalance_proof-settings rt w.tokens clock
          (record ctx { config = w.config; keeper_account = keeper }) claim d k))
  Step-IsValidated w' (Step.mint_requested ctx nonce amount least d e0 k e) = rw e (
      unset-IsValidated d.config (
        mint_request-settings rt w.tokens clock (record ctx { config = w.config }) nonce amount
          least d k))
  Step-IsValidated w'
        (Step.mint_confirmed ctx nonce hash venue_id filled keeper request d e0 e1 k e) =
      rw e (
        unset-IsValidated d.config (
          mint_confirm-settings rt w.tokens clock
            (record ctx { config = w.config; keeper_account = keeper; request = request }) hash
            venue_id filled d k))
  Step-IsValidated w' (Step.mint_cancelled ctx nonce request d e0 k e) = rw e (
      unset-IsValidated d.config (
        mint_cancel-settings rt w.tokens clock (record ctx { config = w.config; request = request })
          d k))
  Step-IsValidated w' (Step.redeem_requested ctx nonce amount least d e0 k e) = rw e (
      unset-IsValidated d.config (
        redeem_request-settings rt w.tokens clock (record ctx { config = w.config }) nonce amount
          least d k))
  Step-IsValidated w'
        (Step.redeem_confirmed ctx nonce hash venue_id unwound keeper request d e0 e1 k e) =
      rw e (
        unset-IsValidated d.config (
          redeem_confirm-settings rt w.tokens clock
            (record ctx { config = w.config; keeper_account = keeper; request = request }) hash
            venue_id unwound d k))
  Step-IsValidated w' (Step.redeem_cancelled ctx nonce request d e0 k e) = rw e (
      unset-IsValidated d.config (
        redeem_cancel-settings rt w.tokens clock
          (record ctx { config = w.config; request = request }) d k))
  Step-IsValidated w' (Step.funding_settled ctx amount d k e) = rw e (
      unset-IsValidated d.config
        (settle_funding-settings rt w.tokens clock (record ctx { config = w.config }) amount d k))
  Step-IsValidated w' (Step.staked ctx amount d k e) = rw e (
      unset-IsValidated d.config (
        stake-settings rt w.tokens clock
          (record ctx {
            config = w.config;
            position = or_new (find (is_position ctx.owner) w.positions);
          })
          amount d k))
  Step-IsValidated w' (Step.unstake_requested ctx amount position d e0 k e) = rw e (
      unset-IsValidated d.config (
        request_unstake-settings rt w.tokens clock
          (record ctx { config = w.config; position = position }) amount d k))
  Step-IsValidated w' (Step.unstaked ctx position d e0 k e) = rw e (
      unset-IsValidated d.config (
        ground (
          arith,
          (unstake_paid rt w.tokens clock (record ctx { config = w.config; position = position }) d
              k).4,
        )))
  Step-IsValidated w' (Step.funding_claimed ctx position d e0 k e) = rw e (
      unset-IsValidated d.config (
        claim_funding-settings rt w.tokens clock
          (record ctx { config = w.config; position = position }) d k))
  Step-IsValidated w' (Step.buffer_deposited ctx amount d k e) = rw e (
      unset-IsValidated d.config
        (buffer_deposit-settings rt w.tokens clock (record ctx { config = w.config }) amount d k))
  Step-IsValidated w' (Step.buffer_withdrawn ctx amount d k e) = rw e (
      unset-IsValidated d.config
        (buffer_withdraw-settings rt w.tokens clock (record ctx { config = w.config }) amount d k))

-- In every world that the program can reach, the parameters are within the bounds, whoever the authority is
-- and whatever it sets.
pub Reachable-IsValidated :
    {T : Type 0} (rt : Runtime T) (w : World T) → Reachable rt w → IsValidated w.config
Reachable-IsValidated rt w (launched clock ctx params tokens h) =
    let (d, k, e) = launch_lem rt clock ctx params tokens w h in
    rw e (initialize-IsValidated rt tokens clock ctx params d k).0
Reachable-IsValidated rt w (stepped {v} clock instruction before done) =
    Step-IsValidated rt clock v (Reachable-IsValidated rt v before) w
      (execute-Step rt clock v w instruction done)
Reachable-IsValidated rt w (elsewhere {w = v} tokens before kept) =
    Reachable-IsValidated rt v before
