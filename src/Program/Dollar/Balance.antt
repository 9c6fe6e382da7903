-- ===== src/Program/Dollar/Balance.antt =====
-- What the promise implies: no collateral and no dollar comes from nowhere or is lost.
use plott.Common.{◌+◌, ◌≤◌, ◌≡◌, some, inl, inr, List, [], ◌∷◌, arith, Option-cases}
use plott.Program.Dollar.{Dollar, Order, accept, play, lodged, returned, minted, burned}

pub record IsBalanced (orders : List Order) (s : Dollar) : Type 0 where
  pub collateral : s.escrow + s.backing + returned orders ≡ lodged orders
  pub dollars : s.issued + burned orders ≡ minted orders
  pub covered : s.redeeming ≤ s.issued

accept-IsBalanced :
    (o : Order) (orders : List Order) (s t : Dollar)
    → accept o s ≡ some t
    → IsBalanced orders s
    → IsBalanced (o ∷ orders) t
unfolding accept
accept-IsBalanced o orders s t h b = record {
  collateral = ground (arith, b.collateral);
  dollars = ground (arith, b.dollars);
  covered = ground (arith, b.covered);
}

pub play-IsBalanced :
    (orders : List Order) (s : Dollar) → play orders ≡ some s → IsBalanced orders s
unfolding play
play-IsBalanced [] s h = record {
  collateral = ground arith;
  dollars = ground arith;
  covered = ground arith;
}
play-IsBalanced (o ∷ os) s h = elim (Option-cases (play os)) [
  | inl e ↦ ground arith
  | inr (before, e) ↦
      accept-IsBalanced o os before s (ground (arith, e)) (play-IsBalanced os before e)
]
