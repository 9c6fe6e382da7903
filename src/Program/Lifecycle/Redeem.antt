-- ===== src/Program/Lifecycle/Redeem.antt =====
-- The life of a redeem request (programs/poyz/src/instructions/redeem.rs), among all the instructions.
use plott.Common.{ℕ, ◌+◌, ◌≤◌, ◌≡◌, ◌⊎◌, inl, inr, ◌∙◌, Bool-cases, some, none, ok, arith, List}
use plott.Common.Int.{◌≤ℤ◌, ◌<ℤ◌}
use plott.State.{Config, RedeemRequest}
use plott.State.Keys.{Pubkey}
use plott.Runtime.{Runtime, Clock}
use plott.Redeem.Books.{redeem_request-account, redeem_confirm-ledger, redeem_cancel-ledger}
use plott.Redeem.Confirm.{redeem_confirm_guarded}
use plott.Redeem.Cancel.{redeem_cancel_late}
use plott.Program.Store.{find, remove, find-at, find-remove_other, find_ext, find-cons_other}
use plott.Program.Store.Unique.{matches, find-remove}
use plott.Program.World.{World, is_redeem_request}
use plott.Program.Execute.{Instruction, execute}
use plott.Program.Step.{Step}
use plott.Program.Step.Sound.{execute-Step}
use plott.Program.Keyed.{IsKeyed}
use plott.Program.Once.{Reachable-IsKeyed}
use plott.Program.Reach.{Reachable}

-- What a confirmation in time and a cancellation after the deadline do to the totals.
pub record Ended (clock : Clock) (c c' : Config) (r : RedeemRequest) : Type 0 where
  pub pending : c'.pending_redeem_synthetic + r.synthetic_amount ≡ c.pending_redeem_synthetic
  pub fate :
      ((clock.unix_timestamp ≤ℤ r.deadline)
        × (c'.total_synthetic + r.synthetic_amount ≡ c.total_synthetic)
        × (c'.total_collateral ≤ c.total_collateral))
      ⊎ ((r.deadline <ℤ clock.unix_timestamp)
          × (c'.total_synthetic ≡ c.total_synthetic)
          × (c'.total_collateral ≡ c.total_collateral))

-- Whether a request is left open when another, or the same, is closed.
closed :
    (requests : List RedeemRequest) (user u : Pubkey) (nonce n : ℕ) (request r : RedeemRequest)
    → matches (is_redeem_request user nonce) requests ≤ 1
    → find (is_redeem_request user nonce) requests ≡ some request
    → find (is_redeem_request u n) requests ≡ some r
    → (find (is_redeem_request u n) (remove (is_redeem_request user nonce) requests) ≡ some r)
      ⊎ ((request ≡ r)
          × (find (is_redeem_request u n) (remove (is_redeem_request user nonce) requests) ≡ none))
closed requests user u nonce n request r one found sought =
    let at = is_redeem_request u n in
    let other = is_redeem_request user nonce in
    let own = find-at other requests request found in
    elim (Bool-cases (at request)) [
      | inl e ↦
          let same : (x : RedeemRequest) → at x ≡ other x = λ x. ground (arith, e, own) in
          let found' = find_ext at other requests same ∙ found in
          inr (
            ground (arith, found', sought),
            find_ext at other (remove other requests) same
                ∙ find-remove other requests request one found,
          )
      | inr e ↦
          inl (find-remove_other at other requests (λ x h. ground (arith, e, own, h)) ∙ sought)
    ]

module _ {T : Type 0} (rt : Runtime T) (clock : Clock) (w : World T)
    (keyed : IsKeyed w.keepers w.mint_requests w.redeem_requests w.positions) (u : Pubkey) (n : ℕ)
    (r : RedeemRequest) (sought : find (is_redeem_request u n) w.redeem_requests ≡ some r) where
  Step_lifecycle :
      (w' : World T) {i : Instruction}
      → Step rt clock w w' i
      → (find (is_redeem_request u n) w'.redeem_requests ≡ some r)
        ⊎ ((find (is_redeem_request u n) w'.redeem_requests ≡ none)
            × Ended clock w.config w'.config r)
  Step_lifecycle w' (Step.administered change c k e) = rw e (inl sought)
  Step_lifecycle w' (Step.keeper_registered ctx amount d e0 k e) = rw e (inl sought)
  Step_lifecycle w' (Step.keeper_bonded ctx amount keeper d e0 k e) = rw e (inl sought)
  Step_lifecycle w' (Step.keeper_unbonded ctx amount keeper d e0 k e) = rw e (inl sought)
  Step_lifecycle w' (Step.keeper_slashed ctx amount reason evidence keeper d e0 k e) =
      rw e (inl sought)
  Step_lifecycle w' (Step.proof_committed ctx claim keeper d e0 e1 k e) = rw e (inl sought)
  Step_lifecycle w' (Step.mint_requested ctx nonce amount least d e0 k e) = rw e (inl sought)
  Step_lifecycle w'
        (Step.mint_confirmed ctx nonce hash venue_id filled keeper request d e0 e1 k e) =
      rw e (inl sought)
  Step_lifecycle w' (Step.mint_cancelled ctx nonce request d e0 k e) = rw e (inl sought)
  Step_lifecycle w' (Step.redeem_requested ctx nonce amount least d e0 k e) =
      let (own, numbered, a) =
        redeem_request-account rt w.tokens clock (record ctx { config = w.config }) nonce amount
          least d k in
      elim (Bool-cases (is_redeem_request u n d.account)) [
        | inl h ↦
            let same : (x : RedeemRequest)
                → is_redeem_request u n x ≡ is_redeem_request ctx.user nonce x =
              λ x. ground (arith, h, own, numbered) in
            let gone =
              find_ext (is_redeem_request u n) (is_redeem_request ctx.user nonce) w.redeem_requests
                same
              ∙ e0 in
            absurd (ground (arith, gone, sought))
        | inr h ↦
            rw e
              (inl (find-cons_other (is_redeem_request u n) d.account w.redeem_requests h ∙ sought))
      ]
  Step_lifecycle w'
        (Step.redeem_confirmed ctx nonce hash venue_id unwound keeper request d e0 e1 k e) =
      let l =
        redeem_confirm-ledger rt w.tokens clock
          (record ctx { config = w.config; keeper_account = keeper; request = request }) hash
          venue_id unwound d k in
      let timely =
        (redeem_confirm_guarded rt w.tokens clock
          (record ctx { config = w.config; keeper_account = keeper; request = request }) hash
          venue_id unwound d k).5 in
      elim (closed w.redeem_requests ctx.user u nonce n request r (keyed.one_redeem ctx.user nonce)
        e1 sought) [
          | inl left ↦ rw e (inl left)
          | inr (same, gone) ↦ rw e (
              inr (
                gone,
                record {
                  pending = ground (arith, l.1, same);
                  fate = inl (
                    ground (arith, same, timely),
                    ground (arith, l.2, same),
                    ground (arith, l.0),
                  );
                },
              ))
        ]
  Step_lifecycle w' (Step.redeem_cancelled ctx nonce request d e0 k e) =
      let l =
        redeem_cancel-ledger rt w.tokens clock (record ctx { config = w.config; request = request })
          d k in
      let late =
        redeem_cancel_late rt w.tokens clock (record ctx { config = w.config; request = request }) d
          k in
      elim (closed w.redeem_requests ctx.user u nonce n request r (keyed.one_redeem ctx.user nonce)
        e0 sought) [
          | inl left ↦ rw e (inl left)
          | inr (same, gone) ↦ rw e (
              inr (
                gone,
                record {
                  pending = ground (arith, l.1, same);
                  fate = inr (ground (arith, same, late), ground (arith, l.0), ground (arith, l.0));
                },
              ))
        ]
  Step_lifecycle w' (Step.funding_settled ctx amount d k e) = rw e (inl sought)
  Step_lifecycle w' (Step.staked ctx amount d k e) = rw e (inl sought)
  Step_lifecycle w' (Step.unstake_requested ctx amount position d e0 k e) = rw e (inl sought)
  Step_lifecycle w' (Step.unstaked ctx position d e0 k e) = rw e (inl sought)
  Step_lifecycle w' (Step.funding_claimed ctx position d e0 k e) = rw e (inl sought)
  Step_lifecycle w' (Step.buffer_deposited ctx amount d k e) = rw e (inl sought)
  Step_lifecycle w' (Step.buffer_withdrawn ctx amount d k e) = rw e (inl sought)

-- In the worlds that the program can reach, whatever instruction succeeds, an open redeem request stays open
-- as it is; or it is confirmed by its deadline, and its amount leaves what is pending and the
-- supply; or it is cancelled after its deadline, and its amount leaves what is pending, with
-- nothing burned and nothing paid. Nobody can end or change it otherwise.
pub redeem_request_lifecycle :
    {T : Type 0} (rt : Runtime T) (clock : Clock) (w w' : World T) (instruction : Instruction)
    (user : Pubkey) (nonce : ℕ) (r : RedeemRequest)
    → Reachable rt w
    → find (is_redeem_request user nonce) w.redeem_requests ≡ some r
    → execute rt clock instruction w ≡ ok w'
    → (find (is_redeem_request user nonce) w'.redeem_requests ≡ some r)
      ⊎ ((find (is_redeem_request user nonce) w'.redeem_requests ≡ none)
          × Ended clock w.config w'.config r)
redeem_request_lifecycle rt clock w w' instruction user nonce r reach sought done =
    Step_lifecycle rt clock w (Reachable-IsKeyed rt w reach) user nonce r sought w'
      (execute-Step rt clock w w' instruction done)
