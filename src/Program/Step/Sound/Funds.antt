-- ===== src/Program/Step/Sound/Funds.antt =====
-- The instructions on funding, stakes and the buffer: each that succeeds is its step.
use plott.Common.{ℕ, ◌≡◌, ok, arith, Result-cases, Option-cases, inl, inr}
use plott.Runtime.{Runtime, Clock}
use plott.Funding.Accounts.{SettleFundingCtx, StakeCtx, UnstakeCtx}
use plott.Funding
use plott.Buffer.{BufferDepositCtx, BufferWithdrawCtx}
use plott.Buffer
use plott.Program.Store.{find}
use plott.Program.World.{World, is_position}
use plott.Program.Execute.{Instruction, execute, or_new}
use plott.Program.Step.{Step}

module _ {T : Type 0} (rt : Runtime T) (clock : Clock) (w w' : World T) where
  pub settle_funding_step :
      (ctx : SettleFundingCtx) (amount : ℕ)
      → execute rt clock (Instruction.settle_funding ctx amount) w ≡ ok w'
      → Step rt clock w w' (Instruction.settle_funding ctx amount)
  unfolding execute
  settle_funding_step ctx amount h =
      elim (Result-cases
        (Funding.settle_funding rt w.tokens clock (record ctx { config = w.config }) amount)) [
          | inl (d, k) ↦ Step.funding_settled ctx amount d k (ground arith)
          | inr (f, k) ↦ ground arith
        ]

  pub stake_step :
      (ctx : StakeCtx) (amount : ℕ)
      → execute rt clock (Instruction.stake ctx amount) w ≡ ok w'
      → Step rt clock w w' (Instruction.stake ctx amount)
  unfolding execute
  stake_step ctx amount h =
      elim (Result-cases (
        Funding.stake rt w.tokens clock
          (record ctx {
            config = w.config;
            position = or_new (find (is_position ctx.owner) w.positions);
          })
          amount)) [
            | inl (d, k) ↦ Step.staked ctx amount d k (ground arith)
            | inr (f, k) ↦ ground arith
          ]

  pub request_unstake_step :
      (ctx : UnstakeCtx) (amount : ℕ)
      → execute rt clock (Instruction.request_unstake ctx amount) w ≡ ok w'
      → Step rt clock w w' (Instruction.request_unstake ctx amount)
  unfolding execute
  request_unstake_step ctx amount h =
      elim (Option-cases (find (is_position ctx.owner) w.positions)) [
        | inl e0 ↦ ground arith
        | inr (position, e0) ↦
            elim (Result-cases (
              Funding.request_unstake rt w.tokens clock
                (record ctx { config = w.config; position = position }) amount)) [
                  | inl (d, k) ↦ Step.unstake_requested ctx amount position d e0 k (ground arith)
                  | inr (f, k) ↦ ground arith
                ]
      ]

  pub unstake_step :
      (ctx : UnstakeCtx)
      → execute rt clock (Instruction.unstake ctx) w ≡ ok w'
      → Step rt clock w w' (Instruction.unstake ctx)
  unfolding execute
  unstake_step ctx h = elim (Option-cases (find (is_position ctx.owner) w.positions)) [
    | inl e0 ↦ ground arith
    | inr (position, e0) ↦
        elim (Result-cases (
          Funding.unstake rt w.tokens clock
            (record ctx { config = w.config; position = position }))) [
              | inl (d, k) ↦ Step.unstaked ctx position d e0 k (ground arith)
              | inr (f, k) ↦ ground arith
            ]
  ]

  pub claim_funding_step :
      (ctx : UnstakeCtx)
      → execute rt clock (Instruction.claim_funding ctx) w ≡ ok w'
      → Step rt clock w w' (Instruction.claim_funding ctx)
  unfolding execute
  claim_funding_step ctx h = elim (Option-cases (find (is_position ctx.owner) w.positions)) [
    | inl e0 ↦ ground arith
    | inr (position, e0) ↦
        elim (Result-cases (
          Funding.claim_funding rt w.tokens clock
            (record ctx { config = w.config; position = position }))) [
              | inl (d, k) ↦ Step.funding_claimed ctx position d e0 k (ground arith)
              | inr (f, k) ↦ ground arith
            ]
  ]

  pub buffer_deposit_step :
      (ctx : BufferDepositCtx) (amount : ℕ)
      → execute rt clock (Instruction.buffer_deposit ctx amount) w ≡ ok w'
      → Step rt clock w w' (Instruction.buffer_deposit ctx amount)
  unfolding execute
  buffer_deposit_step ctx amount h =
      elim (Result-cases
        (Buffer.buffer_deposit rt w.tokens clock (record ctx { config = w.config }) amount)) [
          | inl (d, k) ↦ Step.buffer_deposited ctx amount d k (ground arith)
          | inr (f, k) ↦ ground arith
        ]

  pub buffer_withdraw_step :
      (ctx : BufferWithdrawCtx) (amount : ℕ)
      → execute rt clock (Instruction.buffer_withdraw ctx amount) w ≡ ok w'
      → Step rt clock w w' (Instruction.buffer_withdraw ctx amount)
  unfolding execute
  buffer_withdraw_step ctx amount h =
      elim (Result-cases
        (Buffer.buffer_withdraw rt w.tokens clock (record ctx { config = w.config }) amount)) [
          | inl (d, k) ↦ Step.buffer_withdrawn ctx amount d k (ground arith)
          | inr (f, k) ↦ ground arith
        ]
