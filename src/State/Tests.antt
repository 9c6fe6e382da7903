-- ===== src/State/Tests.antt =====
-- The seeds of programs/poyz/src/state.rs at concrete accounts.
use plott.Common.{◌≡◌, ◌≢◌, refl, arith, ◌∷◌, []}
use plott.Proof.Tamper.{join}
use plott.State.Addresses.{Address, seeds}
use plott.State.Addresses.Distinct.{IsWide, seeds_distinct}

proof_seeds :
    join (seeds (Address.rebalance_proof 258))
    ≡ 112 ∷ 114 ∷ 111 ∷ 111 ∷ 102 ∷ 2 ∷ 1 ∷ 0 ∷ 0 ∷ 0 ∷ 0 ∷ 0 ∷ 0 ∷ []
unfolding join seeds plott.Proof.Preimage.le_bytes
proof_seeds = refl

mint-IsWide : IsWide (Address.mint_request 100 7)
mint-IsWide = (omega arith, omega arith)

redeem-IsWide : IsWide (Address.redeem_request 100 7)
redeem-IsWide = (omega arith, omega arith)

apart : Address.mint_request 100 7 ≢ Address.redeem_request 100 7
apart = λ e. cc

seeds_distinct_example :
    join (seeds (Address.mint_request 100 7)) ≢ join (seeds (Address.redeem_request 100 7))
seeds_distinct_example =
    seeds_distinct (Address.mint_request 100 7) (Address.redeem_request 100 7) mint-IsWide
      redeem-IsWide apart
