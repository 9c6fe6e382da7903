-- ===== src/Program.antt =====
-- The program as a whole: its accounts on the chain, the instructions of programs/poyz/src/lib.rs, and how each
-- finds, makes and closes the accounts that its context names by their seeds. A transaction is one
-- instruction; one that fails changes nothing. An instruction carries the context as the caller fills
-- it; the data of the program's own accounts in it are those of the world.
pub mod Store
pub mod World
pub mod Administer
pub mod Execute
pub mod Step
pub mod Booked
pub mod Owed
pub mod Supply
pub mod Reach
pub mod Later
pub mod Invariant
pub mod Heads
pub mod Paused
pub mod Chain
pub mod Keyed
pub mod Once
pub mod Lifecycle
pub mod Exit
pub mod Dollar
pub mod Run
pub mod Validated
pub mod Fitting
pub mod History
mod Tests
