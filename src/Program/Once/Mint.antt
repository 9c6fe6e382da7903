-- ===== src/Program/Once/Mint.antt =====
-- That a mint request is settled once: `mint_confirm` and `mint_cancel` (programs/poyz/src/instructions/mint.rs)
-- close the request's account (`close = user`), and both want it.
use plott.Common.{
  ℕ, ◌≡◌, some, none, ok, err, account_not_initialized, arith, Option-cases, Result-cases, inl, inr,
}
use plott.State.{MintRequest}
use plott.State.Keys.{Pubkey, Hash}
use plott.Runtime.{Runtime, Clock}
use plott.Mint.Accounts.{MintConfirmCtx, MintCancelCtx}
use plott.Mint
use plott.Program.Store.{find, remove}
use plott.Program.Store.Unique.{find-remove}
use plott.Program.World.{World, is_keeper, is_mint_request}
use plott.Program.Execute.{Instruction, execute}
use plott.Program.Once.{Reachable-IsKeyed}
use plott.Program.Reach.{Reachable}
use plott.Program.Later.{Later}
use plott.Program.Later.Mint.{is_mint_asked, Later-none}

-- The instructions that settle a user's mint request.
pub data SettlesMint (user : Pubkey) (nonce : ℕ) : Instruction → Type 0 where
  confirms :
      (ctx : MintConfirmCtx) (hash : Hash) (venue_id filled : ℕ)
      → ctx.user ≡ user
      → SettlesMint user nonce (Instruction.mint_confirm ctx nonce hash venue_id filled)
  cancels :
      (ctx : MintCancelCtx)
      → ctx.user ≡ user
      → SettlesMint user nonce (Instruction.mint_cancel ctx nonce)

module _ {T : Type 0} (rt : Runtime T) where
  module _ (clock : Clock) (user : Pubkey) (nonce : ℕ) where
    confirm_closes :
        (ctx : MintConfirmCtx) (hash : Hash) (venue_id filled : ℕ) (w w' : World T)
        → execute rt clock (Instruction.mint_confirm ctx nonce hash venue_id filled) w ≡ ok w'
        → (r : MintRequest) × (find (is_mint_request ctx.user nonce) w.mint_requests ≡ some r)
          × (w'.mint_requests ≡ remove (is_mint_request ctx.user nonce) w.mint_requests)
    unfolding execute
    confirm_closes ctx hash venue_id filled w w' h =
        elim (Option-cases (find (is_keeper ctx.keeper) w.keepers)) [
          | inl e ↦ ground arith
          | inr (keeper, e) ↦
              elim (Option-cases (find (is_mint_request ctx.user nonce) w.mint_requests)) [
                | inl e' ↦ ground arith
                | inr (r, e') ↦
                    elim (Result-cases (
                      Mint.mint_confirm rt w.tokens clock
                        (record ctx { config = w.config; keeper_account = keeper; request = r })
                        hash venue_id filled)) [
                          | inl (d, k) ↦ (r, e', ground arith)
                          | inr (f, k) ↦ ground arith
                        ]
              ]
        ]

    cancel_closes :
        (ctx : MintCancelCtx) (w w' : World T)
        → execute rt clock (Instruction.mint_cancel ctx nonce) w ≡ ok w'
        → (r : MintRequest) × (find (is_mint_request ctx.user nonce) w.mint_requests ≡ some r)
          × (w'.mint_requests ≡ remove (is_mint_request ctx.user nonce) w.mint_requests)
    unfolding execute
    cancel_closes ctx w w' h =
        elim (Option-cases (find (is_mint_request ctx.user nonce) w.mint_requests)) [
          | inl e' ↦ ground arith
          | inr (r, e') ↦
              elim (Result-cases (
                Mint.mint_cancel rt w.tokens clock
                  (record ctx { config = w.config; request = r }))) [
                    | inl (d, k) ↦ (r, e', ground arith)
                    | inr (f, k) ↦ ground arith
                  ]
        ]

    mint_closed :
        (i : Instruction) (w w' : World T)
        → SettlesMint user nonce i
        → execute rt clock i w ≡ ok w'
        → (r : MintRequest) × (find (is_mint_request user nonce) w.mint_requests ≡ some r)
          × (w'.mint_requests ≡ remove (is_mint_request user nonce) w.mint_requests)
    mint_closed _ w w' (confirms ctx hash venue_id filled own) h =
        rw (← own) (confirm_closes ctx hash venue_id filled w w' h)
    mint_closed _ w w' (cancels ctx own) h = rw (← own) (cancel_closes ctx w w' h)

    mint_refused :
        (i : Instruction) (w : World T)
        → SettlesMint user nonce i
        → find (is_mint_request user nonce) w.mint_requests ≡ none
        → execute rt clock i w ≡ err account_not_initialized
    unfolding execute
    mint_refused _ w (confirms ctx hash venue_id filled own) gone =
        elim (Option-cases (find (is_keeper ctx.keeper) w.keepers)) [
          | inl e ↦ ground arith
          | inr (keeper, e) ↦ ground (arith, gone, own)
        ]
    mint_refused _ w (cancels ctx own) gone = ground (arith, gone, own)

  -- A mint request is settled once: in the worlds that the program can reach, after a confirmation or a
  -- cancellation that succeeds, and after whatever instructions then follow among transactions of
  -- other programs, every confirmation and every cancellation of the same user and nonce fails at
  -- its accounts, whoever signs it and whatever it passes, as long as none of the instructions that
  -- follow is this user's request of a new one under the same nonce.
  pub mint_settled_once :
      (w w' w'' : World T) (clock clock' : Clock) (user : Pubkey) (nonce : ℕ) (i j : Instruction)
      → Reachable rt w
      → SettlesMint user nonce i
      → SettlesMint user nonce j
      → execute rt clock i w ≡ ok w'
      → Later rt (is_mint_asked user nonce) w' w''
      → execute rt clock' j w'' ≡ err account_not_initialized
  mint_settled_once w w' w'' clock clock' user nonce i j reach settles settles' h later =
      let (r, found, closed) = mint_closed clock user nonce i w w' settles h in
      let one = (Reachable-IsKeyed rt w reach).one_mint user nonce in
      let gone : find (is_mint_request user nonce) w'.mint_requests ≡ none =
        rw closed (find-remove (is_mint_request user nonce) w.mint_requests r one found) in
      mint_refused clock' user nonce j w'' settles' (Later-none rt user nonce w' w'' later gone)
