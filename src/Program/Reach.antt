-- ===== src/Program/Reach.antt =====
-- The worlds that the program can reach: `initialize` and then any instructions, at any times, among
-- transactions of other programs.
use plott.Common.{[], ◌≤◌, ◌≡◌, ok, arith, Result-cases, inl, inr}
use plott.Runtime.{Runtime, Clock, Done, Vault, vault}
use plott.Events.Admin.{ProtocolInitialized}
use plott.Admin.Params.{InitializeParams}
use plott.Admin.Accounts.{InitializeCtx}
use plott.Admin.Initialize.{initialize}
use plott.Program.World.{World}
use plott.Program.Execute.{Instruction, execute, launch}

-- A transaction of another program moves tokens, but it takes none out of a vault: the vaults' authority is
-- an address that signs only this program's own calls.
pub data Reachable {T : Type 0} (rt : Runtime T) : World T → Type 0 where
  launched :
      {w : World T} (clock : Clock) (ctx : InitializeCtx) (params : InitializeParams) (tokens : T)
      → launch rt clock ctx params tokens ≡ ok w
      → Reachable rt w
  stepped :
      {v w : World T} (clock : Clock) (instruction : Instruction)
      → Reachable rt v
      → execute rt clock instruction v ≡ ok w
      → Reachable rt w
  elsewhere :
      {w : World T} (tokens : T)
      → Reachable rt w
      → ((v : Vault) → rt.balance w.tokens (vault v) ≤ rt.balance tokens (vault v))
      → Reachable rt (record w { tokens = tokens })

module _ {T : Type 0} (rt : Runtime T) (clock : Clock) where
  -- The world that `initialize` leaves.
  pub launch_lem :
      (ctx : InitializeCtx) (params : InitializeParams) (tokens : T) (w : World T)
      → launch rt clock ctx params tokens ≡ ok w
      → (d : Done T (Unit {0}) ProtocolInitialized) × (initialize rt tokens clock ctx params ≡ ok d)
        × (w ≡ record {
          config = d.config;
          keepers = [];
          mint_requests = [];
          redeem_requests = [];
          positions = [];
          proofs = [];
          tokens = d.tokens;
        })
  unfolding launch
  launch_lem ctx params tokens w h = elim (Result-cases (initialize rt tokens clock ctx params)) [
    | inl (d, k) ↦ (d, k, ground arith)
    | inr (f, k) ↦ ground arith
  ]
