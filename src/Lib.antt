-- ===== src/Lib.antt =====
-- Poyz (programs/poyz): a synthetic dollar whose collateral is hedged off chain. The program keeps one
-- config account with the totals; users deposit collateral against requests, keepers who have posted a
-- bond hedge off chain and confirm the requests, and stakers share the funding that the hedge earns.
--
-- Parts and files (paths from the repository's root; P is programs/poyz/src):
--   Math       P/math.rs: fixed-point helpers, with every range check. Math/Value says what a notional
--              and a collateral amount are as exact fractions; Math/Bps, Math/Delta and
--              Math/Accumulator do so for fees, deviations and the funding accumulator.
--   State      P/state.rs: the accounts as records, the limits, the venue registry.
--   Events     P/events.rs: a handler returns the event that it emits.
--   Common     P/errors.rs as Common/Errors, with results, Boolean tests, integers and Rust's checked
--              arithmetic over the native numbers.
--   Runtime    what the program calls and does not implement (the token program, the decoding of
--              the oracle account, SHA-256, addresses), as a record that the handlers take. Runtime/Laws
--              states what the token program promises, as the hypothesis of theorems on balances.
--   Oracle     P/oracle.rs: the gates of a price (Oracle/Gates).
--   Valuation  the calls of the oracle and of the conversions, as the handlers write them.
--   Mint       P/instructions/mint.rs. Mint/Accounts holds the contexts, Mint/Gates the issuance gates;
--              the theorems are in Mint/Issuance, Open, Request, Confirm, Supply and Cancel.
--   Redeem     P/instructions/redeem.rs, likewise: Redeem/Net, Request, Confirm, Settled and Cancel.
--   Keepers    P/instructions/keeper.rs: Keepers/Tracked on the counts, Keepers/Bonds on the vaults.
--   Funding    P/instructions/funding.rs: Funding/Settle, Paid, Accrue, Stakes and Claims.
--   Buffer     P/instructions/buffer.rs: Buffer/Draws.
--   Proof      P/instructions/proof.rs: Proof/Preimage is the digest's input, Proof/Deltas what a rebalance
--              must satisfy, Proof/Chain the chain, Proof/Tamper what the digest determines.
--   Admin      P/instructions/admin.rs: Admin/Accounts holds the contexts and who may sign, Admin/Params the
--              parameters and their bounds, Admin/Initialize the first instruction; Admin/Validated,
--              Roles and Reports are on the bounds, the roles and the regime clock.
--   Vaults     P/instructions/vaults.rs: Vaults/Flags.
--   State/Addresses holds the seeds of each account, and its child Distinct compares them.
--   State/Ledger and State/Settings split the config into what handlers count and what administration sets;
--              the child Books of a part says what each of its handlers writes into the first, in full.
--   Program    P/lib.rs: the accounts on the chain as a World, every entry point as `execute` on it
--              (Program/Administer, Program/Execute), with the accounts that it finds, makes and closes by
--              their seeds, and `launch` for initialize. Program/Step is the same as a relation, labelled with
--              the instruction; Reach has the worlds that it reaches from a launch among other programs'
--              transactions, Later what may follow a transaction, Run a history. Booked and Owed hold the
--              books against the accounts and the vaults, Invariant what follows in every reachable world;
--              Supply, Paused, Validated and Fitting are about the supply, the pauses, the bounds of the
--              settings and of the counters; Chain about the proofs; Keyed, Once and Lifecycle about what
--              an address holds and how a request ends; Exit about users who leave, when the token program
--              does what Exit's Pays says of `TransferChecked`. Dollar is an abstract issuer with orders of
--              its own: Dollar/Orders says which order an instruction is, and Dollar/Refined relates the
--              program to it. The tests run on the history of Program/History.
--   Examples   a concrete runtime that keeps the promises of Runtime/Laws, and concrete accounts. The
--              tests of each part are in its child Tests.
--
-- A handler is a function from the runtime, the tokens, the clock, the context's accounts and the arguments
-- to a result: the new config, the account that it writes, the tokens and the event, or the error. The
-- account constraints of a context run first, in the order of its fields. An unsigned integer is a native
-- number and a signed one an integer; each checked operation writes out its range. A handler changes
-- nothing when it fails, as a transaction does not, so that an error carries no state.
--
-- A transaction is one instruction. The data of the program's own accounts in it are those of the world,
-- whatever the caller fills in; an account that is missing, or in use where a new one is made, fails the
-- instruction as Anchor does.
--
-- Not modelled: account allocation and rent, the bump and reserved fields, compute
-- limits and account serialization. Which account a program-derived address names, and that an account
-- that a caller passes for itself is never a vault, is the runtime's. Nothing recurses but the bytes of
-- the digest, so that no fuel is needed.
pub mod Common
pub mod Math
pub mod State
pub mod Events
pub mod Pyth
pub mod Runtime
pub mod Oracle
pub mod Valuation
pub mod Mint
pub mod Redeem
pub mod Keepers
pub mod Funding
pub mod Buffer
pub mod Proof
pub mod Admin
pub mod Vaults
pub mod Program
pub mod Examples
