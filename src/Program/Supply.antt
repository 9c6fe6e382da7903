-- ===== src/Program/Supply.antt =====
-- That every instruction moves the supply of the synthetic dollar exactly as the config's count of it.
use plott.Common.{ℕ, zero, suc, ◌≢◌, ◌+◌, ◌≡◌, ok, some, arith}
use plott.Runtime.{
  Runtime, Clock, Vault, TokenAccount, vault, wallet, collateral_vault, bond_vault,
  buffer_bond_vault, funding_vault, buffer_vault, stake_vault, redeem_escrow,
}
use plott.Runtime.Laws.{TokenLaws}
use plott.Keepers.Books.{
  register_moved, keeper_register-ledger, keeper_bond-ledger, keeper_unbond-ledger,
  keeper_slash-ledger,
}
use plott.Keepers.Bonds.{slash_transfer, bond_moved, unbond_moved}
use plott.Proof.Books.{commit_rebalance_proof-ledger}
use plott.Mint.Books.{
  mint_request-ledger, mint_request-transfer, mint_confirm-ledger, mint_confirm-mint_to,
  mint_cancel-ledger, mint_cancel-transfer,
}
use plott.Redeem.Books.{
  redeem_request-ledger, redeem_request-transfer, redeem_confirm-ledger, redeem_cancel-ledger,
  redeem_cancel-transfer,
}
use plott.Redeem.Settled.{escrow_burned, collateral_paid, settled_counts}
use plott.Funding.Books.{
  settle_funding-ledger, stake-ledger, stake-transfer, request_unstake-ledger,
  request_unstake-tokens, claim_funding-ledger, claim_funding-transfer,
}
use plott.Funding.Paid.{pay_in, settle_transfers}
use plott.Funding.Accounts.{SettleFundingCtx}
use plott.State.Keys.{Pubkey}
use plott.Funding.Stakes.{unstake_paid}
use plott.Buffer.Books.{
  buffer_deposit-ledger, buffer_deposit-transfer, buffer_withdraw-ledger, buffer_withdraw-transfer,
}
use plott.Program.Store.{find}
use plott.Program.World.{World, is_position}
use plott.Program.Execute.{or_new}
use plott.Program.Administer.Kept.{administer-Kept}
use plott.Program.Execute.{Instruction, execute}
use plott.Program.Step.{Step}
use plott.Program.Step.Sound.{execute-Step}

module _ {T : Type 0} (rt : Runtime T) (laws : TokenLaws rt) (clock : Clock) (w : World T) where
  supplies :
      (source destination : TokenAccount) (mint signer : Pubkey) (amount decimals : ℕ) (t t' : T)
      → rt.transfer_checked t source mint destination signer amount decimals ≡ some t'
      → source ≢ destination
      → (m : Pubkey) → rt.supply t' m ≡ rt.supply t m
  supplies source destination mint signer amount decimals t t' h apart =
      (laws.transfers t t' source destination mint signer amount decimals h apart).supplies

  pay_in-supply :
      (ctx : SettleFundingCtx) (t t' : T) (into : Vault) (part : ℕ)
      → pay_in rt ctx t into part ≡ ok t'
      → (m : Pubkey) → rt.supply t' m ≡ rt.supply t m
  pay_in-supply ctx t t' into zero h m = ground arith
  pay_in-supply ctx t t' into (suc n) h m =
      supplies (wallet ctx.authority_synthetic) (vault into) ctx.synthetic_mint ctx.authority
        (suc n) (rt.mint_account t ctx.synthetic_mint).decimals t t' (ground arith) (λ e. cc) m

  Step-supply :
      (w' : World T) {i : Instruction}
      → Step rt clock w w' i
      → let m = w.config.synthetic_mint in
        rt.supply w'.tokens m + w.config.total_synthetic
        ≡ rt.supply w.tokens m + w'.config.total_synthetic
  Step-supply w' (Step.administered change c k e) =
      let kept = administer-Kept rt w.tokens clock w.keepers w.config change c k in
      rw e (ground (arith, kept.ledger))
  Step-supply w' (Step.keeper_registered ctx amount d e0 k e) =
      let c' = record ctx { config = w.config } in
      let l = keeper_register-ledger rt w.tokens clock c' amount d k in
      let m =
        supplies (wallet ctx.keeper_bond_source) (vault bond_vault) ctx.bond_mint ctx.keeper amount
          (rt.mint_account w.tokens ctx.bond_mint).decimals w.tokens d.tokens
          (register_moved rt w.tokens clock c' amount d k) (λ e. cc) w.config.synthetic_mint in
      rw e (ground (arith, l, m))
  Step-supply w' (Step.keeper_bonded ctx amount keeper d e0 k e) =
      let c' = record ctx { config = w.config; keeper_account = keeper } in
      let l = keeper_bond-ledger rt w.tokens clock c' amount d k in
      let m =
        supplies (wallet ctx.keeper_bond_wallet) (vault bond_vault) ctx.bond_mint ctx.keeper amount
          (rt.mint_account w.tokens ctx.bond_mint).decimals w.tokens d.tokens
          ((bond_moved rt w.tokens clock c' amount d k).0) (λ e. cc) w.config.synthetic_mint in
      rw e (ground (arith, l, m))
  Step-supply w' (Step.keeper_unbonded ctx amount keeper d e0 k e) =
      let c' = record ctx { config = w.config; keeper_account = keeper } in
      let l = keeper_unbond-ledger rt w.tokens clock c' amount d k in
      let m =
        supplies (vault bond_vault) (wallet ctx.keeper_bond_wallet) ctx.bond_mint rt.config_key
          amount (rt.mint_account w.tokens ctx.bond_mint).decimals w.tokens d.tokens
          ((unbond_moved rt w.tokens clock c' amount d k).0) (λ e. cc) w.config.synthetic_mint in
      rw e (ground (arith, l, m))
  Step-supply w' (Step.keeper_slashed ctx amount reason evidence keeper d e0 k e) =
      let c' = record ctx { config = w.config; keeper_account = keeper } in
      let l = keeper_slash-ledger rt w.tokens clock c' amount reason evidence d k in
      let m =
        supplies (vault bond_vault) (vault buffer_bond_vault) ctx.bond_mint rt.config_key amount
          (rt.mint_account w.tokens ctx.bond_mint).decimals w.tokens d.tokens
          (slash_transfer rt w.tokens clock c' amount reason evidence d k) (λ e. cc)
          w.config.synthetic_mint in
      rw e (ground (arith, l, m))
  Step-supply w' (Step.proof_committed ctx claim keeper d e0 e1 k e) =
      let c' = record ctx { config = w.config; keeper_account = keeper } in
      let l = commit_rebalance_proof-ledger rt w.tokens clock c' claim d k in
      rw e (ground (arith, l.0, l.4))
  Step-supply w' (Step.mint_requested ctx nonce amount least d e0 k e) =
      let c' = record ctx { config = w.config } in
      let l = mint_request-ledger rt w.tokens clock c' nonce amount least d k in
      let m =
        supplies (wallet ctx.user_collateral) (vault collateral_vault) ctx.collateral_mint ctx.user
          amount (rt.mint_account w.tokens ctx.collateral_mint).decimals w.tokens d.tokens
          (mint_request-transfer rt w.tokens clock c' nonce amount least d k) (λ e. cc)
          w.config.synthetic_mint in
      rw e (ground (arith, l, m))
  Step-supply w' (Step.mint_confirmed ctx nonce hash venue_id filled keeper request d e0 e1 k e) =
      let c' = record ctx { config = w.config; keeper_account = keeper; request = request } in
      let l = mint_confirm-ledger rt w.tokens clock c' hash venue_id filled d k in
      let (done, named, unpaused) =
        mint_confirm-mint_to rt w.tokens clock c' hash venue_id filled d k in
      let (b0, b1, m) =
        laws.mints w.tokens d.tokens ctx.synthetic_mint rt.config_key (wallet ctx.user_synthetic)
          d.event.synthetic_minted done in
      rw e (ground (arith, l, named, m))
  Step-supply w' (Step.mint_cancelled ctx nonce request d e0 k e) =
      let c' = record ctx { config = w.config; request = request } in
      let l = mint_cancel-ledger rt w.tokens clock c' d k in
      let m =
        supplies (vault collateral_vault) (wallet ctx.user_collateral) ctx.collateral_mint
          rt.config_key request.collateral_amount
          (rt.mint_account w.tokens ctx.collateral_mint).decimals w.tokens d.tokens
          (mint_cancel-transfer rt w.tokens clock c' d k) (λ e. cc) w.config.synthetic_mint in
      rw e (ground (arith, l, m))
  Step-supply w' (Step.redeem_requested ctx nonce amount least d e0 k e) =
      let c' = record ctx { config = w.config } in
      let l = redeem_request-ledger rt w.tokens clock c' nonce amount least d k in
      let m =
        supplies (wallet ctx.user_synthetic) (vault redeem_escrow) ctx.synthetic_mint ctx.user
          amount (rt.mint_account w.tokens ctx.synthetic_mint).decimals w.tokens d.tokens
          (redeem_request-transfer rt w.tokens clock c' nonce amount least d k) (λ e. cc)
          w.config.synthetic_mint in
      rw e (ground (arith, l.0, m))
  Step-supply w'
        (Step.redeem_confirmed ctx nonce hash venue_id unwound keeper request d e0 e1 k e) =
      let c' = record ctx { config = w.config; keeper_account = keeper; request = request } in
      let l = redeem_confirm-ledger rt w.tokens clock c' hash venue_id unwound d k in
      let (burnt, gone) = escrow_burned rt w.tokens clock c' hash venue_id unwound d k in
      let named = (settled_counts rt w.tokens clock c' hash venue_id unwound d k).3 in
      let (b0, b1, m0) =
        laws.burns w.tokens burnt ctx.synthetic_mint rt.config_key (vault redeem_escrow)
          request.synthetic_amount gone in
      let m1 =
        supplies (vault collateral_vault) (wallet ctx.user_collateral) ctx.collateral_mint
          rt.config_key d.event.collateral_returned
          (rt.mint_account burnt ctx.collateral_mint).decimals burnt d.tokens
          (collateral_paid rt w.tokens clock c' hash venue_id unwound d k burnt gone) (λ e. cc)
          w.config.synthetic_mint in
      rw e (ground (arith, l, named, m0, m1))
  Step-supply w' (Step.redeem_cancelled ctx nonce request d e0 k e) =
      let c' = record ctx { config = w.config; request = request } in
      let l = redeem_cancel-ledger rt w.tokens clock c' d k in
      let m =
        supplies (vault redeem_escrow) (wallet ctx.user_synthetic) ctx.synthetic_mint rt.config_key
          request.synthetic_amount (rt.mint_account w.tokens ctx.synthetic_mint).decimals w.tokens
          d.tokens (redeem_cancel-transfer rt w.tokens clock c' d k) (λ e. cc)
          w.config.synthetic_mint in
      rw e (ground (arith, l, m))
  Step-supply w' (Step.funding_settled ctx amount d k e) =
      let c' = record ctx { config = w.config } in
      let l = settle_funding-ledger rt w.tokens clock c' amount d k in
      let (funded, buffered, paid) = settle_transfers rt w.tokens clock c' amount d k in
      let m0 =
        pay_in-supply c' w.tokens funded buffer_vault d.event.to_buffer buffered
          w.config.synthetic_mint in
      let m1 =
        pay_in-supply c' funded d.tokens funding_vault d.event.to_stakers paid
          w.config.synthetic_mint in
      rw e (ground (arith, l, m0, m1))
  Step-supply w' (Step.staked ctx amount d k e) =
      let found = or_new (find (is_position ctx.owner) w.positions) in
      let c' = record ctx { config = w.config; position = found } in
      let l = stake-ledger rt w.tokens clock c' amount d k in
      let m =
        supplies (wallet ctx.owner_synthetic) (vault stake_vault) ctx.synthetic_mint ctx.owner
          amount (rt.mint_account w.tokens ctx.synthetic_mint).decimals w.tokens d.tokens
          (stake-transfer rt w.tokens clock c' amount d k) (λ e. cc) w.config.synthetic_mint in
      rw e (ground (arith, l, m))
  Step-supply w' (Step.unstake_requested ctx amount position d e0 k e) =
      let c' = record ctx { config = w.config; position = position } in
      let l = request_unstake-ledger rt w.tokens clock c' amount d k in
      let same = request_unstake-tokens rt w.tokens clock c' amount d k in
      rw e (ground (arith, l.0, same))
  Step-supply w' (Step.unstaked ctx position d e0 k e) =
      let c' = record ctx { config = w.config; position = position } in
      let a = unstake_paid rt w.tokens clock c' d k in
      let same : d.config ≡ w.config = a.4 in
      let m =
        supplies (vault stake_vault) (wallet ctx.owner_synthetic) ctx.synthetic_mint rt.config_key
          position.pending_unstake (rt.mint_account w.tokens ctx.synthetic_mint).decimals w.tokens
          d.tokens (a.5) (λ e. cc) w.config.synthetic_mint in
      rw e (ground (arith, same, m))
  Step-supply w' (Step.funding_claimed ctx position d e0 k e) =
      let c' = record ctx { config = w.config; position = position } in
      let l = claim_funding-ledger rt w.tokens clock c' d k in
      let m =
        supplies (vault funding_vault) (wallet ctx.owner_synthetic) ctx.synthetic_mint rt.config_key
          d.event.amount (rt.mint_account w.tokens ctx.synthetic_mint).decimals w.tokens d.tokens
          (claim_funding-transfer rt w.tokens clock c' d k) (λ e. cc) w.config.synthetic_mint in
      rw e (ground (arith, l, m))
  Step-supply w' (Step.buffer_deposited ctx amount d k e) =
      let c' = record ctx { config = w.config } in
      let l = buffer_deposit-ledger rt w.tokens clock c' amount d k in
      let m =
        supplies (wallet ctx.depositor_synthetic) (vault buffer_vault) ctx.synthetic_mint
          ctx.depositor amount (rt.mint_account w.tokens ctx.synthetic_mint).decimals w.tokens
          d.tokens (buffer_deposit-transfer rt w.tokens clock c' amount d k) (λ e. cc)
          w.config.synthetic_mint in
      rw e (ground (arith, l, m))
  Step-supply w' (Step.buffer_withdrawn ctx amount d k e) =
      let c' = record ctx { config = w.config } in
      let l = buffer_withdraw-ledger rt w.tokens clock c' amount d k in
      let m =
        supplies (vault buffer_vault) (vault funding_vault) ctx.synthetic_mint rt.config_key amount
          (rt.mint_account w.tokens ctx.synthetic_mint).decimals w.tokens d.tokens
          (buffer_withdraw-transfer rt w.tokens clock c' amount d k) (λ e. cc)
          w.config.synthetic_mint in
      rw e (ground (arith, l, m))

  -- With a token program that keeps its promises (Runtime/Laws): every instruction that succeeds moves
  -- the supply of the synthetic mint by exactly as much as the config's count of it.
  pub execute-supply :
      (instruction : Instruction) (w' : World T)
      → execute rt clock instruction w ≡ ok w'
      → let m = w.config.synthetic_mint in
        rt.supply w'.tokens m + w.config.total_synthetic
        ≡ rt.supply w.tokens m + w'.config.total_synthetic
  execute-supply instruction w' done = Step-supply w' (execute-Step rt clock w w' instruction done)
