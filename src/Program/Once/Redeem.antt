-- ===== src/Program/Once/Redeem.antt =====
-- That a redeem request is settled once: `redeem_confirm` and `redeem_cancel` (programs/poyz/src/instructions/redeem.rs)
-- close the request's account (`close = user`), and both want it.
use plott.Common.{
  ℕ, ◌≡◌, some, none, ok, err, account_not_initialized, arith, Option-cases, Result-cases, inl, inr,
}
use plott.State.{RedeemRequest}
use plott.State.Keys.{Pubkey, Hash}
use plott.Runtime.{Runtime, Clock}
use plott.Redeem.Accounts.{RedeemConfirmCtx, RedeemCancelCtx}
use plott.Redeem
use plott.Program.Store.{find, remove}
use plott.Program.Store.Unique.{find-remove}
use plott.Program.World.{World, is_keeper, is_redeem_request}
use plott.Program.Execute.{Instruction, execute}
use plott.Program.Once.{Reachable-IsKeyed}
use plott.Program.Reach.{Reachable}
use plott.Program.Later.{Later}
use plott.Program.Later.Redeem.{is_redeem_asked, Later-none}

-- The instructions that settle a user's redeem request.
pub data SettlesRedeem (user : Pubkey) (nonce : ℕ) : Instruction → Type 0 where
  confirms :
      (ctx : RedeemConfirmCtx) (hash : Hash) (venue_id unwound : ℕ)
      → ctx.user ≡ user
      → SettlesRedeem user nonce (Instruction.redeem_confirm ctx nonce hash venue_id unwound)
  cancels :
      (ctx : RedeemCancelCtx)
      → ctx.user ≡ user
      → SettlesRedeem user nonce (Instruction.redeem_cancel ctx nonce)

module _ {T : Type 0} (rt : Runtime T) where
  module _ (clock : Clock) (user : Pubkey) (nonce : ℕ) where
    confirm_closes :
        (ctx : RedeemConfirmCtx) (hash : Hash) (venue_id unwound : ℕ) (w w' : World T)
        → execute rt clock (Instruction.redeem_confirm ctx nonce hash venue_id unwound) w ≡ ok w'
        → (r : RedeemRequest) × (find (is_redeem_request ctx.user nonce) w.redeem_requests ≡ some r)
          × (w'.redeem_requests ≡ remove (is_redeem_request ctx.user nonce) w.redeem_requests)
    unfolding execute
    confirm_closes ctx hash venue_id unwound w w' h =
        elim (Option-cases (find (is_keeper ctx.keeper) w.keepers)) [
          | inl e ↦ ground arith
          | inr (keeper, e) ↦
              elim (Option-cases (find (is_redeem_request ctx.user nonce) w.redeem_requests)) [
                | inl e' ↦ ground arith
                | inr (r, e') ↦
                    elim (Result-cases (
                      Redeem.redeem_confirm rt w.tokens clock
                        (record ctx { config = w.config; keeper_account = keeper; request = r })
                        hash venue_id unwound)) [
                          | inl (d, k) ↦ (r, e', ground arith)
                          | inr (f, k) ↦ ground arith
                        ]
              ]
        ]

    cancel_closes :
        (ctx : RedeemCancelCtx) (w w' : World T)
        → execute rt clock (Instruction.redeem_cancel ctx nonce) w ≡ ok w'
        → (r : RedeemRequest) × (find (is_redeem_request ctx.user nonce) w.redeem_requests ≡ some r)
          × (w'.redeem_requests ≡ remove (is_redeem_request ctx.user nonce) w.redeem_requests)
    unfolding execute
    cancel_closes ctx w w' h =
        elim (Option-cases (find (is_redeem_request ctx.user nonce) w.redeem_requests)) [
          | inl e' ↦ ground arith
          | inr (r, e') ↦
              elim (Result-cases (
                Redeem.redeem_cancel rt w.tokens clock
                  (record ctx { config = w.config; request = r }))) [
                    | inl (d, k) ↦ (r, e', ground arith)
                    | inr (f, k) ↦ ground arith
                  ]
        ]

    redeem_closed :
        (i : Instruction) (w w' : World T)
        → SettlesRedeem user nonce i
        → execute rt clock i w ≡ ok w'
        → (r : RedeemRequest) × (find (is_redeem_request user nonce) w.redeem_requests ≡ some r)
          × (w'.redeem_requests ≡ remove (is_redeem_request user nonce) w.redeem_requests)
    redeem_closed _ w w' (confirms ctx hash venue_id unwound own) h =
        rw (← own) (confirm_closes ctx hash venue_id unwound w w' h)
    redeem_closed _ w w' (cancels ctx own) h = rw (← own) (cancel_closes ctx w w' h)

    redeem_refused :
        (i : Instruction) (w : World T)
        → SettlesRedeem user nonce i
        → find (is_redeem_request user nonce) w.redeem_requests ≡ none
        → execute rt clock i w ≡ err account_not_initialized
    unfolding execute
    redeem_refused _ w (confirms ctx hash venue_id unwound own) gone =
        elim (Option-cases (find (is_keeper ctx.keeper) w.keepers)) [
          | inl e ↦ ground arith
          | inr (keeper, e) ↦ ground (arith, gone, own)
        ]
    redeem_refused _ w (cancels ctx own) gone = ground (arith, gone, own)

  -- A redeem request is settled once: in the worlds that the program can reach, after a confirmation or a
  -- cancellation that succeeds, and after whatever instructions then follow among transactions of
  -- other programs, every confirmation and every cancellation of the same user and nonce fails at
  -- its accounts, whoever signs it and whatever it passes, as long as none of the instructions that
  -- follow is this user's request of a new one under the same nonce.
  pub redeem_settled_once :
      (w w' w'' : World T) (clock clock' : Clock) (user : Pubkey) (nonce : ℕ) (i j : Instruction)
      → Reachable rt w
      → SettlesRedeem user nonce i
      → SettlesRedeem user nonce j
      → execute rt clock i w ≡ ok w'
      → Later rt (is_redeem_asked user nonce) w' w''
      → execute rt clock' j w'' ≡ err account_not_initialized
  redeem_settled_once w w' w'' clock clock' user nonce i j reach settles settles' h later =
      let (r, found, closed) = redeem_closed clock user nonce i w w' settles h in
      let one = (Reachable-IsKeyed rt w reach).one_redeem user nonce in
      let gone : find (is_redeem_request user nonce) w'.redeem_requests ≡ none =
        rw closed (find-remove (is_redeem_request user nonce) w.redeem_requests r one found) in
      redeem_refused clock' user nonce j w'' settles' (Later-none rt user nonce w' w'' later gone)
