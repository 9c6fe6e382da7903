-- ===== src/Program/Later/Redeem.antt =====
-- That a redeem request that is closed stays closed until its user asks for one again under the same nonce.
use plott.Common.{ℕ, ◌≡◌, ◌==◌, ◌&&◌, Bool, false, none, some, arith, ◌∙◌, List}
use plott.State.{RedeemRequest}
use plott.State.Keys.{Pubkey}
use plott.Runtime.{Runtime, Clock}
use plott.Redeem.Books.{redeem_request-account}
use plott.Program.Store.{find, remove, total-remove, find-cons_other}
use plott.Program.Store.Unique.{one_if, matches-none, find-none}
use plott.Program.World.{World, is_redeem_request}
use plott.Program.Execute.{Instruction}
use plott.Program.Step.{Step}
use plott.Program.Step.Sound.{execute-Step}
use plott.Program.Later.{Later, now, followed, meanwhile}

-- Whether an instruction is the user's request under the nonce.
abbrev pub is_redeem_asked : Pubkey → ℕ → Instruction → Bool
is_redeem_asked user nonce (Instruction.redeem_request ctx n amount least) =
    ctx.user == user && n == nonce
is_redeem_asked user nonce _ = false

remove-none :
    (at other : RedeemRequest → Bool) (requests : List RedeemRequest) (r : RedeemRequest)
    → find other requests ≡ some r
    → find at requests ≡ none
    → find at (remove other requests) ≡ none
remove-none at other requests r found gone = find-none at (remove other requests) (
    omega (
      arith,
      matches-none at requests gone,
      total-remove (λ x. one_if (at x)) other requests r found,
    ))

module _ {T : Type 0} (rt : Runtime T) (user : Pubkey) (number : ℕ) where
  Step-none :
      (clock : Clock) (w w' : World T) {i : Instruction}
      → Step rt clock w w' i
      → is_redeem_asked user number i ≡ false
      → find (is_redeem_request user number) w.redeem_requests ≡ none
      → find (is_redeem_request user number) w'.redeem_requests ≡ none
  Step-none clock w w' (Step.administered change c k e) other gone = rw e gone
  Step-none clock w w' (Step.keeper_registered ctx amount d e0 k e) other gone = rw e gone
  Step-none clock w w' (Step.keeper_bonded ctx amount keeper d e0 k e) other gone = rw e gone
  Step-none clock w w' (Step.keeper_unbonded ctx amount keeper d e0 k e) other gone = rw e gone
  Step-none clock w w' (Step.keeper_slashed ctx amount reason evidence keeper d e0 k e) other gone =
      rw e gone
  Step-none clock w w' (Step.proof_committed ctx claim keeper d e0 e1 k e) other gone = rw e gone
  Step-none clock w w' (Step.mint_requested ctx nonce amount least d e0 k e) other gone = rw e gone
  Step-none clock w w'
        (Step.mint_confirmed ctx nonce hash venue_id filled keeper request d e0 e1 k e) other gone =
      rw e gone
  Step-none clock w w' (Step.mint_cancelled ctx nonce request d e0 k e) other gone = rw e gone
  Step-none clock w w' (Step.redeem_requested ctx nonce amount least d e0 k e) other gone =
      let (own, numbered, a) =
        redeem_request-account rt w.tokens clock (record ctx { config = w.config }) nonce amount
          least d k in
      let apart : is_redeem_request user number d.account ≡ false =
        ground (arith, own, numbered, other) in
      rw e
        (find-cons_other (is_redeem_request user number) d.account w.redeem_requests apart ∙ gone)
  Step-none clock w w'
        (Step.redeem_confirmed ctx nonce hash venue_id unwound keeper request d e0 e1 k e) other
        gone =
      rw e (
        remove-none (is_redeem_request user number) (is_redeem_request ctx.user nonce)
          w.redeem_requests request e1 gone)
  Step-none clock w w' (Step.redeem_cancelled ctx nonce request d e0 k e) other gone = rw e (
      remove-none (is_redeem_request user number) (is_redeem_request ctx.user nonce)
        w.redeem_requests request e0 gone)
  Step-none clock w w' (Step.funding_settled ctx amount d k e) other gone = rw e gone
  Step-none clock w w' (Step.staked ctx amount d k e) other gone = rw e gone
  Step-none clock w w' (Step.unstake_requested ctx amount position d e0 k e) other gone = rw e gone
  Step-none clock w w' (Step.unstaked ctx position d e0 k e) other gone = rw e gone
  Step-none clock w w' (Step.funding_claimed ctx position d e0 k e) other gone = rw e gone
  Step-none clock w w' (Step.buffer_deposited ctx amount d k e) other gone = rw e gone
  Step-none clock w w' (Step.buffer_withdrawn ctx amount d k e) other gone = rw e gone

  pub Later-none :
      (w w' : World T)
      → Later rt (is_redeem_asked user number) w w'
      → find (is_redeem_request user number) w.redeem_requests ≡ none
      → find (is_redeem_request user number) w'.redeem_requests ≡ none
  Later-none w w' now gone = gone
  Later-none w w' (followed {v} clock instruction before other done) gone =
      Step-none clock v w' (execute-Step rt clock v w' instruction done) other
        (Later-none w v before gone)
  Later-none w w' (meanwhile {v} tokens before) gone = Later-none w v before gone
