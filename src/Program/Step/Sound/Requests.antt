-- ===== src/Program/Step/Sound/Requests.antt =====
-- The instructions on mint and redeem requests: each that succeeds is its step.
use plott.Common.{ℕ, ◌≡◌, ok, arith, Result-cases, Option-cases, inl, inr}
use plott.State.Keys.{Hash}
use plott.Runtime.{Runtime, Clock}
use plott.Mint.Accounts.{MintRequestCtx, MintConfirmCtx, MintCancelCtx}
use plott.Mint
use plott.Redeem.Accounts.{RedeemRequestCtx, RedeemConfirmCtx, RedeemCancelCtx}
use plott.Redeem
use plott.Program.Store.{find}
use plott.Program.World.{World, is_keeper, is_mint_request, is_redeem_request}
use plott.Program.Execute.{Instruction, execute}
use plott.Program.Step.{Step}

module _ {T : Type 0} (rt : Runtime T) (clock : Clock) (w w' : World T) where
  pub mint_request_step :
      (ctx : MintRequestCtx) (nonce amount least : ℕ)
      → execute rt clock (Instruction.mint_request ctx nonce amount least) w ≡ ok w'
      → Step rt clock w w' (Instruction.mint_request ctx nonce amount least)
  unfolding execute
  mint_request_step ctx nonce amount least h =
      elim (Option-cases (find (is_mint_request ctx.user nonce) w.mint_requests)) [
        | inl e0 ↦
            elim (Result-cases (
              Mint.mint_request rt w.tokens clock (record ctx { config = w.config }) nonce amount
                least)) [
                  | inl (d, k) ↦ Step.mint_requested ctx nonce amount least d e0 k (ground arith)
                  | inr (f, k) ↦ ground arith
                ]
        | inr (found, e0) ↦ ground arith
      ]

  pub mint_confirm_step :
      (ctx : MintConfirmCtx) (nonce : ℕ) (hash : Hash) (venue_id filled : ℕ)
      → execute rt clock (Instruction.mint_confirm ctx nonce hash venue_id filled) w ≡ ok w'
      → Step rt clock w w' (Instruction.mint_confirm ctx nonce hash venue_id filled)
  unfolding execute
  mint_confirm_step ctx nonce hash venue_id filled h =
      elim (Option-cases (find (is_keeper ctx.keeper) w.keepers)) [
        | inl e0 ↦ ground arith
        | inr (keeper, e0) ↦
            elim (Option-cases (find (is_mint_request ctx.user nonce) w.mint_requests)) [
              | inl e1 ↦ ground arith
              | inr (request, e1) ↦
                  elim (Result-cases (
                    Mint.mint_confirm rt w.tokens clock
                      (record ctx { config = w.config; keeper_account = keeper; request = request })
                      hash venue_id filled)) [
                        | inl (d, k) ↦
                            Step.mint_confirmed ctx nonce hash venue_id filled keeper request d e0
                              e1 k (ground arith)
                        | inr (f, k) ↦ ground arith
                      ]
            ]
      ]

  pub mint_cancel_step :
      (ctx : MintCancelCtx) (nonce : ℕ)
      → execute rt clock (Instruction.mint_cancel ctx nonce) w ≡ ok w'
      → Step rt clock w w' (Instruction.mint_cancel ctx nonce)
  unfolding execute
  mint_cancel_step ctx nonce h =
      elim (Option-cases (find (is_mint_request ctx.user nonce) w.mint_requests)) [
        | inl e0 ↦ ground arith
        | inr (request, e0) ↦
            elim (Result-cases (
              Mint.mint_cancel rt w.tokens clock
                (record ctx { config = w.config; request = request }))) [
                  | inl (d, k) ↦ Step.mint_cancelled ctx nonce request d e0 k (ground arith)
                  | inr (f, k) ↦ ground arith
                ]
      ]

  pub redeem_request_step :
      (ctx : RedeemRequestCtx) (nonce amount least : ℕ)
      → execute rt clock (Instruction.redeem_request ctx nonce amount least) w ≡ ok w'
      → Step rt clock w w' (Instruction.redeem_request ctx nonce amount least)
  unfolding execute
  redeem_request_step ctx nonce amount least h =
      elim (Option-cases (find (is_redeem_request ctx.user nonce) w.redeem_requests)) [
        | inl e0 ↦
            elim (Result-cases (
              Redeem.redeem_request rt w.tokens clock (record ctx { config = w.config }) nonce
                amount least)) [
                  | inl (d, k) ↦ Step.redeem_requested ctx nonce amount least d e0 k (ground arith)
                  | inr (f, k) ↦ ground arith
                ]
        | inr (found, e0) ↦ ground arith
      ]

  pub redeem_confirm_step :
      (ctx : RedeemConfirmCtx) (nonce : ℕ) (hash : Hash) (venue_id unwound : ℕ)
      → execute rt clock (Instruction.redeem_confirm ctx nonce hash venue_id unwound) w ≡ ok w'
      → Step rt clock w w' (Instruction.redeem_confirm ctx nonce hash venue_id unwound)
  unfolding execute
  redeem_confirm_step ctx nonce hash venue_id unwound h =
      elim (Option-cases (find (is_keeper ctx.keeper) w.keepers)) [
        | inl e0 ↦ ground arith
        | inr (keeper, e0) ↦
            elim (Option-cases (find (is_redeem_request ctx.user nonce) w.redeem_requests)) [
              | inl e1 ↦ ground arith
              | inr (request, e1) ↦
                  elim (Result-cases (
                    Redeem.redeem_confirm rt w.tokens clock
                      (record ctx { config = w.config; keeper_account = keeper; request = request })
                      hash venue_id unwound)) [
                        | inl (d, k) ↦
                            Step.redeem_confirmed ctx nonce hash venue_id unwound keeper request d
                              e0 e1 k (ground arith)
                        | inr (f, k) ↦ ground arith
                      ]
            ]
      ]

  pub redeem_cancel_step :
      (ctx : RedeemCancelCtx) (nonce : ℕ)
      → execute rt clock (Instruction.redeem_cancel ctx nonce) w ≡ ok w'
      → Step rt clock w w' (Instruction.redeem_cancel ctx nonce)
  unfolding execute
  redeem_cancel_step ctx nonce h =
      elim (Option-cases (find (is_redeem_request ctx.user nonce) w.redeem_requests)) [
        | inl e0 ↦ ground arith
        | inr (request, e0) ↦
            elim (Result-cases (
              Redeem.redeem_cancel rt w.tokens clock
                (record ctx { config = w.config; request = request }))) [
                  | inl (d, k) ↦ Step.redeem_cancelled ctx nonce request d e0 k (ground arith)
                  | inr (f, k) ↦ ground arith
                ]
      ]
