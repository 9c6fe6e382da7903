-- ===== src/Program/Dollar.antt =====
-- What the program promises about the synthetic dollar, as a machine of its own: collateral is escrowed, then
-- issued against or given back; dollars are held for redemption, then burned for collateral or given
-- back. It knows no oracle, fee, venue, keeper or account. The children show that the program
-- (programs/poyz/src/lib.rs) is an implementation of it.
pub mod Orders
pub mod Balance
pub mod Refined
use plott.Common.{ℕ, ◌+◌, ◌-◌, ◌&&◌, leb, if◌then◌else◌, Option, none, some, List, [], ◌∷◌}
use plott.State.{Config}

pub record Dollar : Type 0 where
  -- Collateral that waits for a hedge, and collateral that backs what is issued.
  pub escrow : ℕ
  pub backing : ℕ
  -- Dollars that are issued, and those of them that wait to be redeemed.
  pub issued : ℕ
  pub redeeming : ℕ

abbrev pub nothing : Dollar
nothing = record { escrow = 0; backing = 0; issued = 0; redeeming = 0 }

-- The collateral or the dollars that an order is about; what `issue` issues and what `pay` pays is for the
-- implementation to choose.
pub data Order : Type 0 where
  lodge refund ask withdraw : ℕ → Order
  issue pay : ℕ → ℕ → Order

-- An order that the books do not cover is refused.
unfoldable pub accept : Order → Dollar → Option Dollar
accept (lodge n) s = some (record s { escrow = s.escrow + n })
accept (refund n) s = if leb n s.escrow then some (record s { escrow = s.escrow - n }) else none
accept (issue n m) s =
    if leb n s.escrow
    then some (record s { escrow = s.escrow - n; backing = s.backing + n; issued = s.issued + m })
    else none
accept (ask m) s =
    if leb (s.redeeming + m) s.issued then some (record s { redeeming = s.redeeming + m }) else none
accept (withdraw m) s =
    if leb m s.redeeming then some (record s { redeeming = s.redeeming - m }) else none
accept (pay m n) s =
    if leb m s.redeeming && leb m s.issued && leb n s.backing
    then some
        (record s { redeeming = s.redeeming - m; issued = s.issued - m; backing = s.backing - n })
    else none

-- No order leaves the books as they are.
abbrev pub follow : Option Order → Dollar → Option Dollar
follow none s = some s
follow (some o) s = accept o s

-- A history, newest order first.
unfoldable pub play : List Order → Option Dollar
play [] = some nothing
play (o ∷ os) = elim (play os) [ none ↦ none | some s ↦ accept o s ]

-- What a history's orders bring in and take out: collateral that is lodged, and given back or paid; dollars
-- that are issued, and burned.
abbrev pub lodged : List Order → ℕ
lodged [] = 0
lodged (lodge n ∷ os) = n + lodged os
lodged (o ∷ os) = lodged os

abbrev pub returned : List Order → ℕ
returned [] = 0
returned (refund n ∷ os) = n + returned os
returned (pay m n ∷ os) = n + returned os
returned (o ∷ os) = returned os

abbrev pub minted : List Order → ℕ
minted [] = 0
minted (issue n m ∷ os) = m + minted os
minted (o ∷ os) = minted os

abbrev pub burned : List Order → ℕ
burned [] = 0
burned (pay m n ∷ os) = m + burned os
burned (o ∷ os) = burned os

-- The program's state as the promise sees it.
abbrev pub dollar_of : Config → Dollar
dollar_of c = record {
  escrow = c.pending_collateral;
  backing = c.total_collateral;
  issued = c.total_synthetic;
  redeeming = c.pending_redeem_synthetic;
}
