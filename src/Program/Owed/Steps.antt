-- ===== src/Program/Owed/Steps.antt =====
-- That every instruction moves each vault exactly as what the program owes there.
use plott.Common.{◌+◌, ◌≡◌, Bool, some, arith, Option-cases, inl, inr}
use plott.State.{StakePosition}
use plott.Runtime.{
  Runtime, Clock, Vault, vault, collateral_vault, bond_vault, buffer_bond_vault, funding_vault,
  buffer_vault, stake_vault, redeem_escrow,
}
use plott.Runtime.Laws.{TokenLaws}
use plott.Keepers.Books.{
  register_moved, keeper_register-ledger, keeper_bond-ledger, keeper_unbond-ledger,
  keeper_slash-ledger,
}
use plott.Keepers.Bonds.{slash_transfer, bond_moved, unbond_moved}
use plott.Proof.Books.{commit_rebalance_proof-ledger}
use plott.Mint.Books.{
  mint_request-ledger, mint_request-transfer, mint_confirm-ledger, mint_confirm-mint_to,
  mint_cancel-ledger, mint_cancel-transfer,
}
use plott.Redeem.Books.{
  redeem_request-ledger, redeem_request-transfer, redeem_confirm-ledger, redeem_cancel-ledger,
  redeem_cancel-transfer,
}
use plott.Redeem.Settled.{escrow_burned, collateral_paid}
use plott.Funding.Books.{
  settle_funding-ledger, stake-ledger, stake-Counted, stake-transfer, request_unstake-ledger,
  request_unstake_held, request_unstake-tokens, request_unstake-Counted, claim_funding-ledger,
  claim_funding-Counted, claim_funding-transfer,
}
use plott.Funding.Paid.{settle_transfers}
use plott.Funding.Stakes.{principal, unstake_paid}
use plott.Buffer.Books.{
  buffer_deposit-ledger, buffer_deposit-transfer, buffer_withdraw-ledger, buffer_withdraw-transfer,
}
use plott.Program.Store.{total-store, total-store_new, store, find}
use plott.Program.World.{World, is_position}
use plott.Program.Execute.{Instruction, or_new}
use plott.Program.Administer.Kept.{administer-Kept}
use plott.Program.Step.{Step}
use plott.Program.Owed.{owed_by, principals, deposited, withdrawn, moved, minted, burned, paid_in}

module _ {T : Type 0} (rt : Runtime T) (laws : TokenLaws rt) (clock : Clock) (w : World T) where
  principals_rewritten :
      (at : StakePosition → Bool) (old new : StakePosition)
      → find at w.positions ≡ some old
      → principals (store at new w.positions) + principal old
        ≡ principals w.positions + principal new
  principals_rewritten at old new found = total-store principal at new w.positions old found

  principals_stored :
      (at : StakePosition → Bool) (new : StakePosition)
      → principals (store at new w.positions) + principal (or_new (find at w.positions))
        ≡ principals w.positions + principal new
  principals_stored at new = elim (Option-cases (find at w.positions)) [
    | inl e ↦ rw e (omega (arith, total-store_new principal at new w.positions e))
    | inr (old, e) ↦ rw e (principals_rewritten at old new e)
  ]

  -- With a token program that keeps its promises (Runtime/Laws): every instruction that succeeds moves
  -- each of the seven vaults by exactly as much as it moves what the program owes there.
  pub Step-owed :
      (w' : World T) {i : Instruction}
      → Step rt clock w w' i
      → (v : Vault)
      → rt.balance w'.tokens (vault v) + owed_by w v ≡ rt.balance w.tokens (vault v) + owed_by w' v
  Step-owed w' (Step.administered change c k e) v =
      let kept = administer-Kept rt w.tokens clock w.keepers w.config change c k in
      rw e (ground (arith, kept.ledger))
  Step-owed w' (Step.keeper_registered ctx amount d e0 k e) v =
      let c' = record ctx { config = w.config } in
      let l = keeper_register-ledger rt w.tokens clock c' amount d k in
      let m =
        deposited rt laws w.tokens d.tokens ctx.keeper_bond_source ctx.bond_mint ctx.keeper
          bond_vault amount (rt.mint_account w.tokens ctx.bond_mint).decimals
          (register_moved rt w.tokens clock c' amount d k) v in
      rw e (ground (arith, l, m))
  Step-owed w' (Step.keeper_bonded ctx amount keeper d e0 k e) v =
      let c' = record ctx { config = w.config; keeper_account = keeper } in
      let l = keeper_bond-ledger rt w.tokens clock c' amount d k in
      let m =
        deposited rt laws w.tokens d.tokens ctx.keeper_bond_wallet ctx.bond_mint ctx.keeper
          bond_vault amount (rt.mint_account w.tokens ctx.bond_mint).decimals
          ((bond_moved rt w.tokens clock c' amount d k).0) v in
      rw e (ground (arith, l, m))
  Step-owed w' (Step.keeper_unbonded ctx amount keeper d e0 k e) v =
      let c' = record ctx { config = w.config; keeper_account = keeper } in
      let l = keeper_unbond-ledger rt w.tokens clock c' amount d k in
      let m =
        withdrawn rt laws w.tokens d.tokens ctx.keeper_bond_wallet ctx.bond_mint rt.config_key
          bond_vault amount (rt.mint_account w.tokens ctx.bond_mint).decimals
          ((unbond_moved rt w.tokens clock c' amount d k).0) v in
      rw e (ground (arith, l, m))
  Step-owed w' (Step.keeper_slashed ctx amount reason evidence keeper d e0 k e) v =
      let c' = record ctx { config = w.config; keeper_account = keeper } in
      let l = keeper_slash-ledger rt w.tokens clock c' amount reason evidence d k in
      let m =
        moved rt laws w.tokens d.tokens bond_vault buffer_bond_vault ctx.bond_mint rt.config_key
          amount (rt.mint_account w.tokens ctx.bond_mint).decimals
          (slash_transfer rt w.tokens clock c' amount reason evidence d k) (λ e. cc) v in
      rw e (ground (arith, l, m))
  Step-owed w' (Step.proof_committed ctx claim keeper d e0 e1 k e) v =
      let c' = record ctx { config = w.config; keeper_account = keeper } in
      let l = commit_rebalance_proof-ledger rt w.tokens clock c' claim d k in
      rw e (ground (arith, l.0, l.4))
  Step-owed w' (Step.mint_requested ctx nonce amount least d e0 k e) v =
      let c' = record ctx { config = w.config } in
      let l = mint_request-ledger rt w.tokens clock c' nonce amount least d k in
      let m =
        deposited rt laws w.tokens d.tokens ctx.user_collateral ctx.collateral_mint ctx.user
          collateral_vault amount (rt.mint_account w.tokens ctx.collateral_mint).decimals
          (mint_request-transfer rt w.tokens clock c' nonce amount least d k) v in
      rw e (ground (arith, l, m))
  Step-owed w' (Step.mint_confirmed ctx nonce hash venue_id filled keeper request d e0 e1 k e) v =
      let c' = record ctx { config = w.config; keeper_account = keeper; request = request } in
      let l = mint_confirm-ledger rt w.tokens clock c' hash venue_id filled d k in
      let m =
        minted rt laws w.tokens d.tokens ctx.synthetic_mint rt.config_key ctx.user_synthetic
          d.event.synthetic_minted
          (mint_confirm-mint_to rt w.tokens clock c' hash venue_id filled d k).0 v in
      rw e (ground (arith, l, m))
  Step-owed w' (Step.mint_cancelled ctx nonce request d e0 k e) v =
      let c' = record ctx { config = w.config; request = request } in
      let l = mint_cancel-ledger rt w.tokens clock c' d k in
      let m =
        withdrawn rt laws w.tokens d.tokens ctx.user_collateral ctx.collateral_mint rt.config_key
          collateral_vault request.collateral_amount
          (rt.mint_account w.tokens ctx.collateral_mint).decimals
          (mint_cancel-transfer rt w.tokens clock c' d k) v in
      rw e (ground (arith, l, m))
  Step-owed w' (Step.redeem_requested ctx nonce amount least d e0 k e) v =
      let c' = record ctx { config = w.config } in
      let l = redeem_request-ledger rt w.tokens clock c' nonce amount least d k in
      let m =
        deposited rt laws w.tokens d.tokens ctx.user_synthetic ctx.synthetic_mint ctx.user
          redeem_escrow amount (rt.mint_account w.tokens ctx.synthetic_mint).decimals
          (redeem_request-transfer rt w.tokens clock c' nonce amount least d k) v in
      rw e (ground (arith, l.0, m))
  Step-owed w' (Step.redeem_confirmed ctx nonce hash venue_id unwound keeper request d e0 e1 k e)
        v =
      let c' = record ctx { config = w.config; keeper_account = keeper; request = request } in
      let l = redeem_confirm-ledger rt w.tokens clock c' hash venue_id unwound d k in
      let (burnt, gone) = escrow_burned rt w.tokens clock c' hash venue_id unwound d k in
      let m0 =
        burned rt laws w.tokens burnt ctx.synthetic_mint rt.config_key redeem_escrow
          request.synthetic_amount gone v in
      let m1 =
        withdrawn rt laws burnt d.tokens ctx.user_collateral ctx.collateral_mint rt.config_key
          collateral_vault d.event.collateral_returned
          (rt.mint_account burnt ctx.collateral_mint).decimals
          (collateral_paid rt w.tokens clock c' hash venue_id unwound d k burnt gone) v in
      rw e (ground (arith, l, m0, m1))
  Step-owed w' (Step.redeem_cancelled ctx nonce request d e0 k e) v =
      let c' = record ctx { config = w.config; request = request } in
      let l = redeem_cancel-ledger rt w.tokens clock c' d k in
      let m =
        withdrawn rt laws w.tokens d.tokens ctx.user_synthetic ctx.synthetic_mint rt.config_key
          redeem_escrow request.synthetic_amount
          (rt.mint_account w.tokens ctx.synthetic_mint).decimals
          (redeem_cancel-transfer rt w.tokens clock c' d k) v in
      rw e (ground (arith, l, m))
  Step-owed w' (Step.funding_settled ctx amount d k e) v =
      let c' = record ctx { config = w.config } in
      let l = settle_funding-ledger rt w.tokens clock c' amount d k in
      let (funded, buffered, paid) = settle_transfers rt w.tokens clock c' amount d k in
      let m0 = paid_in rt laws w.tokens funded c' buffer_vault d.event.to_buffer buffered v in
      let m1 = paid_in rt laws funded d.tokens c' funding_vault d.event.to_stakers paid v in
      rw e (ground (arith, l, m0, m1))
  Step-owed w' (Step.staked ctx amount d k e) v =
      let found = or_new (find (is_position ctx.owner) w.positions) in
      let c' = record ctx { config = w.config; position = found } in
      let l = stake-ledger rt w.tokens clock c' amount d k in
      let a = stake-Counted rt w.tokens clock c' amount d k in
      let s = principals_stored (is_position ctx.owner) d.account in
      let m =
        deposited rt laws w.tokens d.tokens ctx.owner_synthetic ctx.synthetic_mint ctx.owner
          stake_vault amount (rt.mint_account w.tokens ctx.synthetic_mint).decimals
          (stake-transfer rt w.tokens clock c' amount d k) v in
      rw e (ground (arith, l, a.staked, a.pending, s, m))
  Step-owed w' (Step.unstake_requested ctx amount position d e0 k e) v =
      let c' = record ctx { config = w.config; position = position } in
      let l = request_unstake-ledger rt w.tokens clock c' amount d k in
      let a = request_unstake-Counted rt w.tokens clock c' amount d k in
      let held = request_unstake_held rt w.tokens clock c' amount d k in
      let same = request_unstake-tokens rt w.tokens clock c' amount d k in
      let s = principals_rewritten (is_position ctx.owner) position d.account e0 in
      rw e (ground (arith, l.0, a.staked, a.pending, held, s, same))
  Step-owed w' (Step.unstaked ctx position d e0 k e) v =
      let c' = record ctx { config = w.config; position = position } in
      let a = unstake_paid rt w.tokens clock c' d k in
      let s = principals_rewritten (is_position ctx.owner) position d.account e0 in
      let same : d.config ≡ w.config = a.4 in
      let m =
        withdrawn rt laws w.tokens d.tokens ctx.owner_synthetic ctx.synthetic_mint rt.config_key
          stake_vault position.pending_unstake
          (rt.mint_account w.tokens ctx.synthetic_mint).decimals (a.5) v in
      rw e (ground (arith, a.2, a.3, same, s, m))
  Step-owed w' (Step.funding_claimed ctx position d e0 k e) v =
      let c' = record ctx { config = w.config; position = position } in
      let l = claim_funding-ledger rt w.tokens clock c' d k in
      let a = claim_funding-Counted rt w.tokens clock c' d k in
      let s = principals_rewritten (is_position ctx.owner) position d.account e0 in
      let m =
        withdrawn rt laws w.tokens d.tokens ctx.owner_synthetic ctx.synthetic_mint rt.config_key
          funding_vault d.event.amount (rt.mint_account w.tokens ctx.synthetic_mint).decimals
          (claim_funding-transfer rt w.tokens clock c' d k) v in
      rw e (ground (arith, l, a.staked, a.pending, s, m))
  Step-owed w' (Step.buffer_deposited ctx amount d k e) v =
      let c' = record ctx { config = w.config } in
      let l = buffer_deposit-ledger rt w.tokens clock c' amount d k in
      let m =
        deposited rt laws w.tokens d.tokens ctx.depositor_synthetic ctx.synthetic_mint ctx.depositor
          buffer_vault amount (rt.mint_account w.tokens ctx.synthetic_mint).decimals
          (buffer_deposit-transfer rt w.tokens clock c' amount d k) v in
      rw e (ground (arith, l, m))
  Step-owed w' (Step.buffer_withdrawn ctx amount d k e) v =
      let c' = record ctx { config = w.config } in
      let l = buffer_withdraw-ledger rt w.tokens clock c' amount d k in
      let m =
        moved rt laws w.tokens d.tokens buffer_vault funding_vault ctx.synthetic_mint rt.config_key
          amount (rt.mint_account w.tokens ctx.synthetic_mint).decimals
          (buffer_withdraw-transfer rt w.tokens clock c' amount d k) (λ e. cc) v in
      rw e (ground (arith, l, m))
