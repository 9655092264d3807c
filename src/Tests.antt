-- ===== src/Tests.antt =====
-- The theorems at concrete inputs, and runs of the model on them. The search tree is the plain one
-- of RbTree/Plain.antt.
pub mod Sets
pub mod Dumper
pub mod Reports
pub mod System
pub mod Comparison
pub mod Statistics
pub mod Swap
pub mod Sending
pub mod PageFlags
pub mod World
