-- ===== src/Program/Keyed.antt =====
-- That an address holds one account: no two accounts of a kind have one key.
use plott.Common.{ℕ, ◌≤◌, ◌≡◌, refl, some, none, arith, List, ◌∷◌, Option-cases, inl, inr}
use plott.State.{Keeper, MintRequest, RedeemRequest, StakePosition}
use plott.State.Keys.{Pubkey}
use plott.Runtime.{Runtime, Clock}
use plott.Keepers.Tracked.{
  keeper_register-Tracked, keeper_bond-Tracked, keeper_unbond-Tracked, keeper_slash-Tracked,
}
use plott.Proof.Books.{commit_rebalance_proof-account}
use plott.Mint.Books.{mint_request-account}
use plott.Redeem.Books.{redeem_request-account}
use plott.Funding.Books.{
  stake-Counted, request_unstake-Counted, claim_funding-Counted, unstake-owner,
}
use plott.Program.Store.{find, remove, store, find-at}
use plott.Program.Store.Unique.{
  matches, added_unique, store_new_unique, store_unique, remove_unique,
}
use plott.Program.World.{World, is_keeper, is_mint_request, is_redeem_request, is_position}
use plott.Program.Execute.{Instruction, or_new}
use plott.Program.Step.{Step}

pub record IsKeyed (keepers : List Keeper) (mint_requests : List MintRequest)
    (redeem_requests : List RedeemRequest) (positions : List StakePosition) : Type 0 where
  pub one_keeper : (key : Pubkey) → matches (is_keeper key) keepers ≤ 1
  pub one_mint :
      (user : Pubkey) (nonce : ℕ) → matches (is_mint_request user nonce) mint_requests ≤ 1
  pub one_redeem :
      (user : Pubkey) (nonce : ℕ) → matches (is_redeem_request user nonce) redeem_requests ≤ 1
  pub one_position : (owner : Pubkey) → matches (is_position owner) positions ≤ 1

module _ {T : Type 0} (w : World T)
    (b : IsKeyed w.keepers w.mint_requests w.redeem_requests w.positions) where
  rewritten :
      (key : Pubkey) (k k' : Keeper)
      → find (is_keeper key) w.keepers ≡ some k
      → k'.keeper ≡ k.keeper
      → IsKeyed (store (is_keeper key) k' w.keepers) w.mint_requests w.redeem_requests w.positions
  rewritten key k k' found same = record {
    one_keeper = λ other.
        store_unique (is_keeper key) (is_keeper other) w.keepers (b.one_keeper other) k' k found
          (rw same refl);
    one_mint = b.one_mint;
    one_redeem = b.one_redeem;
    one_position = b.one_position;
  }

  restaked :
      (owner : Pubkey) (p p' : StakePosition)
      → find (is_position owner) w.positions ≡ some p
      → p'.owner ≡ p.owner
      → IsKeyed w.keepers w.mint_requests w.redeem_requests
          (store (is_position owner) p' w.positions)
  restaked owner p p' found same = record {
    one_keeper = b.one_keeper;
    one_mint = b.one_mint;
    one_redeem = b.one_redeem;
    one_position = λ other.
        store_unique (is_position owner) (is_position other) w.positions (b.one_position other) p' p
          found (rw same refl);
  }

  staked :
      (owner : Pubkey) (p : StakePosition)
      → p.owner ≡ owner
      → IsKeyed w.keepers w.mint_requests w.redeem_requests
          (store (is_position owner) p w.positions)
  staked owner p own = elim (Option-cases (find (is_position owner) w.positions)) [
    | inl vacant ↦ record {
      one_keeper = b.one_keeper;
      one_mint = b.one_mint;
      one_redeem = b.one_redeem;
      one_position = λ other.
          store_new_unique (is_position owner) (is_position other) w.positions
            (b.one_position other) p vacant (λ e x. ground (arith, e, own));
    }
    | inr (old, found) ↦
        restaked owner old p found
          (ground (arith, own, find-at (is_position owner) w.positions old found))
  ]

  minted :
      (user nonce : ℕ) (r : MintRequest)
      → find (is_mint_request user nonce) w.mint_requests ≡ none
      → r.user ≡ user
      → r.nonce ≡ nonce
      → IsKeyed w.keepers (r ∷ w.mint_requests) w.redeem_requests w.positions
  minted user nonce r vacant own numbered = record {
    one_keeper = b.one_keeper;
    one_mint = λ u n.
        added_unique (is_mint_request user nonce) (is_mint_request u n) w.mint_requests
          (b.one_mint u n) r vacant (λ e x. ground (arith, e, own, numbered));
    one_redeem = b.one_redeem;
    one_position = b.one_position;
  }

  mint_closed :
      (user nonce : ℕ) (r : MintRequest)
      → find (is_mint_request user nonce) w.mint_requests ≡ some r
      → IsKeyed w.keepers
          (remove (is_mint_request user nonce) w.mint_requests)
          w.redeem_requests
          w.positions
  mint_closed user nonce r found = record {
    one_keeper = b.one_keeper;
    one_mint = λ u n.
        remove_unique (is_mint_request user nonce) (is_mint_request u n) w.mint_requests
          (b.one_mint u n) r found;
    one_redeem = b.one_redeem;
    one_position = b.one_position;
  }

  redeemed :
      (user nonce : ℕ) (r : RedeemRequest)
      → find (is_redeem_request user nonce) w.redeem_requests ≡ none
      → r.user ≡ user
      → r.nonce ≡ nonce
      → IsKeyed w.keepers w.mint_requests (r ∷ w.redeem_requests) w.positions
  redeemed user nonce r vacant own numbered = record {
    one_keeper = b.one_keeper;
    one_mint = b.one_mint;
    one_redeem = λ u n.
        added_unique (is_redeem_request user nonce) (is_redeem_request u n) w.redeem_requests
          (b.one_redeem u n) r vacant (λ e x. ground (arith, e, own, numbered));
    one_position = b.one_position;
  }

  redeem_closed :
      (user nonce : ℕ) (r : RedeemRequest)
      → find (is_redeem_request user nonce) w.redeem_requests ≡ some r
      → IsKeyed w.keepers w.mint_requests
          (remove (is_redeem_request user nonce) w.redeem_requests)
          w.positions
  redeem_closed user nonce r found = record {
    one_keeper = b.one_keeper;
    one_mint = b.one_mint;
    one_redeem = λ u n.
        remove_unique (is_redeem_request user nonce) (is_redeem_request u n) w.redeem_requests
          (b.one_redeem u n) r found;
    one_position = b.one_position;
  }

module _ {T : Type 0} (rt : Runtime T) (clock : Clock) (w : World T)
    (b : IsKeyed w.keepers w.mint_requests w.redeem_requests w.positions) where
  pub Step-IsKeyed :
      (w' : World T) {i : Instruction}
      → Step rt clock w w' i
      → IsKeyed w'.keepers w'.mint_requests w'.redeem_requests w'.positions
  Step-IsKeyed w' (Step.administered change c k e) = rw e b
  Step-IsKeyed w' (Step.keeper_registered ctx amount d e0 k e) = rw e (record {
    one_keeper = λ other.
        added_unique (is_keeper ctx.keeper) (is_keeper other) w.keepers (b.one_keeper other)
          d.account e0
          (λ h x. ground (
            arith,
            h,
            (keeper_register-Tracked rt w.tokens clock (record ctx { config = w.config }) amount d
                k).owner,
          ));
    one_mint = b.one_mint;
    one_redeem = b.one_redeem;
    one_position = b.one_position;
  })
  Step-IsKeyed w' (Step.keeper_bonded ctx amount keeper d e0 k e) = rw e (
      rewritten w b ctx.keeper keeper d.account e0
        (keeper_bond-Tracked rt w.tokens clock
          (record ctx { config = w.config; keeper_account = keeper }) amount d k).owner)
  Step-IsKeyed w' (Step.keeper_unbonded ctx amount keeper d e0 k e) = rw e (
      rewritten w b ctx.keeper keeper d.account e0
        (keeper_unbond-Tracked rt w.tokens clock
          (record ctx { config = w.config; keeper_account = keeper }) amount d k).owner)
  Step-IsKeyed w' (Step.keeper_slashed ctx amount reason evidence keeper d e0 k e) = rw e (
      rewritten w b ctx.keeper_account.keeper keeper d.account e0
        (keeper_slash-Tracked rt w.tokens clock
          (record ctx { config = w.config; keeper_account = keeper }) amount reason evidence d
          k).owner)
  Step-IsKeyed w' (Step.proof_committed ctx claim keeper d e0 e1 k e) = rw e (
      rewritten w b ctx.keeper keeper d.account.1 e1
        (commit_rebalance_proof-account rt w.tokens clock
          (record ctx { config = w.config; keeper_account = keeper }) claim d k).0)
  Step-IsKeyed w' (Step.mint_requested ctx nonce amount least d e0 k e) =
      let (own, numbered, a) =
        mint_request-account rt w.tokens clock (record ctx { config = w.config }) nonce amount least
          d k in
      rw e (minted w b ctx.user nonce d.account e0 own numbered)
  Step-IsKeyed w' (Step.mint_confirmed ctx nonce hash venue_id filled keeper request d e0 e1 k e) =
      rw e (mint_closed w b ctx.user nonce request e1)
  Step-IsKeyed w' (Step.mint_cancelled ctx nonce request d e0 k e) =
      rw e (mint_closed w b ctx.user nonce request e0)
  Step-IsKeyed w' (Step.redeem_requested ctx nonce amount least d e0 k e) =
      let (own, numbered, a) =
        redeem_request-account rt w.tokens clock (record ctx { config = w.config }) nonce amount
          least d k in
      rw e (redeemed w b ctx.user nonce d.account e0 own numbered)
  Step-IsKeyed w'
        (Step.redeem_confirmed ctx nonce hash venue_id unwound keeper request d e0 e1 k e) =
      rw e (redeem_closed w b ctx.user nonce request e1)
  Step-IsKeyed w' (Step.redeem_cancelled ctx nonce request d e0 k e) =
      rw e (redeem_closed w b ctx.user nonce request e0)
  Step-IsKeyed w' (Step.funding_settled ctx amount d k e) = rw e b
  Step-IsKeyed w' (Step.staked ctx amount d k e) = rw e (
      staked w b ctx.owner d.account
        (stake-Counted rt w.tokens clock
          (record ctx {
            config = w.config;
            position = or_new (find (is_position ctx.owner) w.positions);
          })
          amount d k).owned)
  Step-IsKeyed w' (Step.unstake_requested ctx amount position d e0 k e) = rw e (
      restaked w b ctx.owner position d.account e0
        (request_unstake-Counted rt w.tokens clock
          (record ctx { config = w.config; position = position }) amount d k).owned)
  Step-IsKeyed w' (Step.unstaked ctx position d e0 k e) = rw e (
      restaked w b ctx.owner position d.account e0 (
        unstake-owner rt w.tokens clock (record ctx { config = w.config; position = position }) d
          k))
  Step-IsKeyed w' (Step.funding_claimed ctx position d e0 k e) = rw e (
      restaked w b ctx.owner position d.account e0
        (claim_funding-Counted rt w.tokens clock
          (record ctx { config = w.config; position = position }) d k).owned)
  Step-IsKeyed w' (Step.buffer_deposited ctx amount d k e) = rw e b
  Step-IsKeyed w' (Step.buffer_withdrawn ctx amount d k e) = rw e b
