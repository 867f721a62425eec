-- ===== src/Tests.antt =====
-- Runs of the model on concrete inputs, and the theorems applied to them.
pub mod Window
pub mod Rounds
pub mod Speeds
pub mod Stores
pub mod Toy
pub mod Provers
pub mod Challenges
pub mod Submissions
pub mod Sessions
pub mod Payments
pub mod Blocks
pub mod Texts
pub mod Networks
pub mod Ledgers
pub mod Machines
pub mod Nodes
pub mod Frames
pub mod Signals
pub mod Tasks
