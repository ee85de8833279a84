-- ===== src/Tests.antt =====
-- Concrete inputs: the theorems applied to them.
pub mod Frames
pub mod Lists
pub mod Packets
pub mod Switching
pub mod Nat
pub mod HashedNat
pub mod Letters
pub mod Start
pub mod Threads
pub mod Memory
pub mod Stores
pub mod Example
pub mod Exhausted
pub mod Answers
