-- ===== src/Program/Booked/Steps.antt =====
-- That every instruction keeps the config's counts equal to the sums over the accounts.
use plott.Common.{ℕ, ◌+◌, ◌≡◌, Bool, some, arith, ◌∷◌, Option-cases, inl, inr}
use plott.State.{Config, Keeper, MintRequest, RedeemRequest, StakePosition}
use plott.Runtime.{Runtime, Clock}
use plott.Keepers.Tracked.{
  Tracked, counted, keeper_register-Tracked, keeper_bond-Tracked, keeper_unbond-Tracked,
  keeper_slash-Tracked,
}
use plott.Keepers.Books.{Tracked-ledger}
use plott.Proof.Books.{commit_rebalance_proof-ledger, commit_rebalance_proof-account}
use plott.Mint.Books.{
  mint_request-ledger, mint_request-account, mint_confirm-ledger, mint_cancel-ledger,
}
use plott.Redeem.Books.{
  redeem_request-ledger, redeem_request-account, redeem_confirm-ledger, redeem_cancel-ledger,
}
use plott.Funding.Books.{
  settle_funding-ledger, stake-ledger, stake-Counted, request_unstake-ledger,
  request_unstake-Counted, claim_funding-ledger, claim_funding-Counted, request_unstake_held,
}
use plott.Buffer.Books.{buffer_deposit-ledger, buffer_withdraw-ledger}
use plott.Program.Store.{
  total-find, total-remove, total-store, total-store_new, store, find, remove,
}
use plott.Program.World.{World, is_keeper, is_mint_request, is_redeem_request, is_position}
use plott.Program.Step.{Step}
use plott.Program.Execute.{Instruction, or_new}
use plott.Program.Administer.Kept.{administer-Kept}
use plott.Funding.Stakes.{unstake_paid}
use plott.Program.Booked.{
  IsBooked, escrowed, in_flight, stakes, quiet-IsBooked, keepers-IsBooked, mints-IsBooked,
  redeems-IsBooked, stakes-IsBooked,
}

module _ {T : Type 0} (rt : Runtime T) (clock : Clock) (w : World T) (b : IsBooked w) where
  -- A keeper's account is rewritten, and the config follows it.
  store-IsBooked :
      (at : Keeper → Bool) (k k' : Keeper) (c : Config) (t : T)
      → find at w.keepers ≡ some k
      → Tracked w.config c k k'
      → IsBooked (record w { config = c; keepers = store at k' w.keepers; tokens = t })
  store-IsBooked at k k' c t found tracked =
      let one = total-find (λ (k : Keeper). counted k.active) at w.keepers k found in
      keepers-IsBooked w b c t (store at k' w.keepers) w.proofs
        (ground (arith, Tracked-ledger tracked))
        (omega (
          arith,
          tracked.bonded,
          b.bonded,
          total-store (λ (k : Keeper). k.bonded) at k' w.keepers k found,
        ))
        (omega (
          arith,
          tracked.slashed,
          b.slashed,
          total-store (λ (k : Keeper). k.slashed) at k' w.keepers k found,
        ))
        (omega (
          arith,
          tracked.count,
          b.active,
          one,
          total-store (λ (k : Keeper). counted k.active) at k' w.keepers k found,
        ))

  mints_left :
      (user nonce : ℕ) (request : MintRequest) (pending : ℕ)
      → find (is_mint_request user nonce) w.mint_requests ≡ some request
      → pending + request.collateral_amount ≡ w.config.pending_collateral
      → pending ≡ escrowed (remove (is_mint_request user nonce) w.mint_requests)
  mints_left user nonce request pending found less =
      let all =
        total-remove (λ (r : MintRequest). r.collateral_amount) (is_mint_request user nonce)
          w.mint_requests request found in
      omega (arith, less, b.mints, all)

  redeems_left :
      (user nonce : ℕ) (request : RedeemRequest) (pending : ℕ)
      → find (is_redeem_request user nonce) w.redeem_requests ≡ some request
      → pending + request.synthetic_amount ≡ w.config.pending_redeem_synthetic
      → pending ≡ in_flight (remove (is_redeem_request user nonce) w.redeem_requests)
  redeems_left user nonce request pending found less =
      let all =
        total-remove (λ (r : RedeemRequest). r.synthetic_amount) (is_redeem_request user nonce)
          w.redeem_requests request found in
      omega (arith, less, b.redeems, all)

  stakes_rewritten :
      (at : StakePosition → Bool) (old new : StakePosition)
      → find at w.positions ≡ some old
      → stakes (store at new w.positions) + old.amount ≡ stakes w.positions + new.amount
  stakes_rewritten at old new found =
      total-store (λ (p : StakePosition). p.amount) at new w.positions old found

  -- A position that is made has no stake before.
  stakes_stored :
      (at : StakePosition → Bool) (new : StakePosition)
      → stakes (store at new w.positions) + (or_new (find at w.positions)).amount
        ≡ stakes w.positions + new.amount
  stakes_stored at new = elim (Option-cases (find at w.positions)) [
    | inl e ↦
        rw e (omega (arith, total-store_new (λ (p : StakePosition). p.amount) at new w.positions e))
    | inr (old, e) ↦ rw e (stakes_rewritten at old new e)
  ]

  pub Step-IsBooked : (w' : World T) {i : Instruction} → Step rt clock w w' i → IsBooked w'
  Step-IsBooked w' (Step.administered change c k e) =
      let kept = administer-Kept rt w.tokens clock w.keepers w.config change c k in
      rw e (quiet-IsBooked w b c w.tokens (ground (arith, kept.ledger)))
  Step-IsBooked w' (Step.keeper_registered ctx amount d e0 k e) =
      let tracked =
        keeper_register-Tracked rt w.tokens clock (record ctx { config = w.config }) amount d k in
      rw e (
        keepers-IsBooked w b d.config d.tokens (d.account ∷ w.keepers) w.proofs
          (ground (arith, Tracked-ledger tracked)) (omega (arith, tracked.bonded, b.bonded))
          (omega (arith, tracked.slashed, b.slashed)) (omega (arith, tracked.count, b.active)))
  Step-IsBooked w' (Step.keeper_bonded ctx amount keeper d e0 k e) = rw e (
      store-IsBooked (is_keeper ctx.keeper) keeper d.account d.config d.tokens e0 (
        keeper_bond-Tracked rt w.tokens clock
          (record ctx { config = w.config; keeper_account = keeper }) amount d k))
  Step-IsBooked w' (Step.keeper_unbonded ctx amount keeper d e0 k e) = rw e (
      store-IsBooked (is_keeper ctx.keeper) keeper d.account d.config d.tokens e0 (
        keeper_unbond-Tracked rt w.tokens clock
          (record ctx { config = w.config; keeper_account = keeper }) amount d k))
  Step-IsBooked w' (Step.keeper_slashed ctx amount reason evidence keeper d e0 k e) = rw e (
      store-IsBooked (is_keeper ctx.keeper_account.keeper) keeper d.account d.config d.tokens e0 (
        keeper_slash-Tracked rt w.tokens clock
          (record ctx { config = w.config; keeper_account = keeper }) amount reason evidence d k))
  Step-IsBooked w' (Step.proof_committed ctx claim keeper d e0 e1 k e) =
      let c' = record ctx { config = w.config; keeper_account = keeper } in
      let l = commit_rebalance_proof-ledger rt w.tokens clock c' claim d k in
      let a = commit_rebalance_proof-account rt w.tokens clock c' claim d k in
      let at = is_keeper ctx.keeper in
      let k' = d.account.1 in
      rw e (
        keepers-IsBooked w b d.config d.tokens (store at k' w.keepers) (d.account.0 ∷ w.proofs)
          (ground (arith, l.0))
          (ground (
            arith,
            l.0,
            a,
            b.bonded,
            total-store (λ (k : Keeper). k.bonded) at k' w.keepers keeper e1,
          ))
          (ground (
            arith,
            l.0,
            a,
            b.slashed,
            total-store (λ (k : Keeper). k.slashed) at k' w.keepers keeper e1,
          ))
          (ground (
            arith,
            l.0,
            a,
            b.active,
            total-store (λ (k : Keeper). counted k.active) at k' w.keepers keeper e1,
          )))
  Step-IsBooked w' (Step.mint_requested ctx nonce amount least d e0 k e) =
      let c' = record ctx { config = w.config } in
      let l = mint_request-ledger rt w.tokens clock c' nonce amount least d k in
      let a = mint_request-account rt w.tokens clock c' nonce amount least d k in
      rw e (
        mints-IsBooked w b d.config d.tokens (d.account ∷ w.mint_requests) (ground (arith, l))
          (ground (arith, l, a, b.mints)) (ground (arith, l)))
  Step-IsBooked w' (Step.mint_confirmed ctx nonce hash venue_id filled keeper request d e0 e1 k e) =
      let c' = record ctx { config = w.config; keeper_account = keeper; request = request } in
      let l = mint_confirm-ledger rt w.tokens clock c' hash venue_id filled d k in
      rw e (
        mints-IsBooked w b d.config d.tokens
          (remove (is_mint_request ctx.user nonce) w.mint_requests) (ground (arith, l.0))
          (mints_left ctx.user nonce request d.config.pending_collateral e1 l.1)
          (ground (arith, l.0)))
  Step-IsBooked w' (Step.mint_cancelled ctx nonce request d e0 k e) =
      let l =
        mint_cancel-ledger rt w.tokens clock (record ctx { config = w.config; request = request }) d
          k in
      rw e (
        mints-IsBooked w b d.config d.tokens
          (remove (is_mint_request ctx.user nonce) w.mint_requests) (ground (arith, l.0))
          (mints_left ctx.user nonce request d.config.pending_collateral e0 l.1)
          (ground (arith, l.0)))
  Step-IsBooked w' (Step.redeem_requested ctx nonce amount least d e0 k e) =
      let c' = record ctx { config = w.config } in
      let l = redeem_request-ledger rt w.tokens clock c' nonce amount least d k in
      let a = redeem_request-account rt w.tokens clock c' nonce amount least d k in
      rw e (
        redeems-IsBooked w b d.config d.tokens (d.account ∷ w.redeem_requests) (ground (arith, l.0))
          (ground (arith, l.0, a, b.redeems)) (ground (arith, l)))
  Step-IsBooked w'
        (Step.redeem_confirmed ctx nonce hash venue_id unwound keeper request d e0 e1 k e) =
      let c' = record ctx { config = w.config; keeper_account = keeper; request = request } in
      let l = redeem_confirm-ledger rt w.tokens clock c' hash venue_id unwound d k in
      rw e (
        redeems-IsBooked w b d.config d.tokens
          (remove (is_redeem_request ctx.user nonce) w.redeem_requests) (ground (arith, l.0))
          (redeems_left ctx.user nonce request d.config.pending_redeem_synthetic e1 l.1)
          (omega (arith, l.1, l.2, b.covered)))
  Step-IsBooked w' (Step.redeem_cancelled ctx nonce request d e0 k e) =
      let l =
        redeem_cancel-ledger rt w.tokens clock (record ctx { config = w.config; request = request })
          d k in
      rw e (
        redeems-IsBooked w b d.config d.tokens
          (remove (is_redeem_request ctx.user nonce) w.redeem_requests) (ground (arith, l.0))
          (redeems_left ctx.user nonce request d.config.pending_redeem_synthetic e0 l.1)
          (ground (arith, l.0, l.1, b.covered)))
  Step-IsBooked w' (Step.funding_settled ctx amount d k e) =
      let l =
        settle_funding-ledger rt w.tokens clock (record ctx { config = w.config }) amount d k in
      rw e (quiet-IsBooked w b d.config d.tokens (ground (arith, l)))
  Step-IsBooked w' (Step.staked ctx amount d k e) =
      let found = or_new (find (is_position ctx.owner) w.positions) in
      let c' = record ctx { config = w.config; position = found } in
      let l = stake-ledger rt w.tokens clock c' amount d k in
      let a = stake-Counted rt w.tokens clock c' amount d k in
      rw e (
        stakes-IsBooked w b d.config d.tokens (store (is_position ctx.owner) d.account w.positions)
          (ground (arith, l))
          (ground (arith, l, a.staked, b.staked, stakes_stored (is_position ctx.owner) d.account)))
  Step-IsBooked w' (Step.unstake_requested ctx amount position d e0 k e) =
      let c' = record ctx { config = w.config; position = position } in
      let l = request_unstake-ledger rt w.tokens clock c' amount d k in
      let a = request_unstake-Counted rt w.tokens clock c' amount d k in
      let held = request_unstake_held rt w.tokens clock c' amount d k in
      rw e (
        stakes-IsBooked w b d.config d.tokens (store (is_position ctx.owner) d.account w.positions)
          (ground (arith, l.0))
          (omega (
            arith,
            l.1,
            a.staked,
            held,
            b.staked,
            stakes_rewritten (is_position ctx.owner) position d.account e0,
          )))
  Step-IsBooked w' (Step.unstaked ctx position d e0 k e) =
      let c' = record ctx { config = w.config; position = position } in
      let a = unstake_paid rt w.tokens clock c' d k in
      let same : d.config ≡ w.config = a.4 in
      rw e (
        stakes-IsBooked w b d.config d.tokens (store (is_position ctx.owner) d.account w.positions)
          (ground (arith, same))
          (ground (
            arith,
            a.2,
            same,
            b.staked,
            stakes_rewritten (is_position ctx.owner) position d.account e0,
          )))
  Step-IsBooked w' (Step.funding_claimed ctx position d e0 k e) =
      let c' = record ctx { config = w.config; position = position } in
      let l = claim_funding-ledger rt w.tokens clock c' d k in
      let a = claim_funding-Counted rt w.tokens clock c' d k in
      rw e (
        stakes-IsBooked w b d.config d.tokens (store (is_position ctx.owner) d.account w.positions)
          (ground (arith, l.0))
          (ground (
            arith,
            l.0,
            a.staked,
            b.staked,
            stakes_rewritten (is_position ctx.owner) position d.account e0,
          )))
  Step-IsBooked w' (Step.buffer_deposited ctx amount d k e) =
      let l =
        buffer_deposit-ledger rt w.tokens clock (record ctx { config = w.config }) amount d k in
      rw e (quiet-IsBooked w b d.config d.tokens (ground (arith, l)))
  Step-IsBooked w' (Step.buffer_withdrawn ctx amount d k e) =
      let l =
        buffer_withdraw-ledger rt w.tokens clock (record ctx { config = w.config }) amount d k in
      rw e (quiet-IsBooked w b d.config d.tokens (ground (arith, l.0)))
