-- ===== src/Program/Step/Sound/Records.antt =====
-- The instructions on the configuration, keepers and proofs: each that succeeds is its step.
use plott.Common.{ℕ, ◌≡◌, ok, arith, Result-cases, Option-cases, inl, inr}
use plott.State.Keys.{Hash}
use plott.Runtime.{Runtime, Clock}
use plott.Keepers.Accounts.{KeeperRegisterCtx, KeeperBondCtx, KeeperSlashCtx}
use plott.Keepers
use plott.Proof.{CommitRebalanceProofCtx, Claim}
use plott.Proof
use plott.Program.Store.{find}
use plott.Program.World.{World, is_keeper, is_proof}
use plott.Program.Administer.{Administration, administer}
use plott.Program.Execute.{Instruction, execute}
use plott.Program.Step.{Step}

module _ {T : Type 0} (rt : Runtime T) (clock : Clock) (w w' : World T) where
  pub administer_step :
      (change : Administration)
      → execute rt clock (Instruction.administration change) w ≡ ok w'
      → Step rt clock w w' (Instruction.administration change)
  unfolding execute
  administer_step change h =
      elim (Result-cases (administer rt w.tokens clock w.keepers w.config change)) [
        | inl (config, k) ↦ Step.administered change config k (ground arith)
        | inr (f, k) ↦ ground arith
      ]

  pub keeper_register_step :
      (ctx : KeeperRegisterCtx) (amount : ℕ)
      → execute rt clock (Instruction.keeper_register ctx amount) w ≡ ok w'
      → Step rt clock w w' (Instruction.keeper_register ctx amount)
  unfolding execute
  keeper_register_step ctx amount h = elim (Option-cases (find (is_keeper ctx.keeper) w.keepers)) [
    | inl e0 ↦
        elim (Result-cases
          (Keepers.keeper_register rt w.tokens clock (record ctx { config = w.config }) amount)) [
            | inl (d, k) ↦ Step.keeper_registered ctx amount d e0 k (ground arith)
            | inr (f, k) ↦ ground arith
          ]
    | inr (found, e0) ↦ ground arith
  ]

  pub keeper_bond_step :
      (ctx : KeeperBondCtx) (amount : ℕ)
      → execute rt clock (Instruction.keeper_bond ctx amount) w ≡ ok w'
      → Step rt clock w w' (Instruction.keeper_bond ctx amount)
  unfolding execute
  keeper_bond_step ctx amount h = elim (Option-cases (find (is_keeper ctx.keeper) w.keepers)) [
    | inl e0 ↦ ground arith
    | inr (keeper, e0) ↦
        elim (Result-cases (
          Keepers.keeper_bond rt w.tokens clock
            (record ctx { config = w.config; keeper_account = keeper }) amount)) [
              | inl (d, k) ↦ Step.keeper_bonded ctx amount keeper d e0 k (ground arith)
              | inr (f, k) ↦ ground arith
            ]
  ]

  pub keeper_unbond_step :
      (ctx : KeeperBondCtx) (amount : ℕ)
      → execute rt clock (Instruction.keeper_unbond ctx amount) w ≡ ok w'
      → Step rt clock w w' (Instruction.keeper_unbond ctx amount)
  unfolding execute
  keeper_unbond_step ctx amount h = elim (Option-cases (find (is_keeper ctx.keeper) w.keepers)) [
    | inl e0 ↦ ground arith
    | inr (keeper, e0) ↦
        elim (Result-cases (
          Keepers.keeper_unbond rt w.tokens clock
            (record ctx { config = w.config; keeper_account = keeper }) amount)) [
              | inl (d, k) ↦ Step.keeper_unbonded ctx amount keeper d e0 k (ground arith)
              | inr (f, k) ↦ ground arith
            ]
  ]

  pub keeper_slash_step :
      (ctx : KeeperSlashCtx) (amount reason : ℕ) (evidence : Hash)
      → execute rt clock (Instruction.keeper_slash ctx amount reason evidence) w ≡ ok w'
      → Step rt clock w w' (Instruction.keeper_slash ctx amount reason evidence)
  unfolding execute
  keeper_slash_step ctx amount reason evidence h =
      elim (Option-cases (find (is_keeper ctx.keeper_account.keeper) w.keepers)) [
        | inl e0 ↦ ground arith
        | inr (keeper, e0) ↦
            elim (Result-cases (
              Keepers.keeper_slash rt w.tokens clock
                (record ctx { config = w.config; keeper_account = keeper }) amount reason
                evidence)) [
                  | inl (d, k) ↦
                      Step.keeper_slashed ctx amount reason evidence keeper d e0 k (ground arith)
                  | inr (f, k) ↦ ground arith
                ]
      ]

  pub commit_rebalance_proof_step :
      (ctx : CommitRebalanceProofCtx) (claim : Claim)
      → execute rt clock (Instruction.commit_rebalance_proof ctx claim) w ≡ ok w'
      → Step rt clock w w' (Instruction.commit_rebalance_proof ctx claim)
  unfolding execute
  commit_rebalance_proof_step ctx claim h =
      elim (Option-cases (find (is_proof claim.sequence) w.proofs)) [
        | inl e0 ↦ elim (Option-cases (find (is_keeper ctx.keeper) w.keepers)) [
          | inl e1 ↦ ground arith
          | inr (keeper, e1) ↦
              elim (Result-cases (
                Proof.commit_rebalance_proof rt w.tokens clock
                  (record ctx { config = w.config; keeper_account = keeper }) claim)) [
                    | inl (d, k) ↦ Step.proof_committed ctx claim keeper d e0 e1 k (ground arith)
                    | inr (f, k) ↦ ground arith
                  ]
        ]
        | inr (found, e0) ↦ ground arith
      ]
