-- ===== src/Bpp9000.antt =====
-- The BPP9000 reference scorer, src/bpp9000.
pub mod Types
pub mod Roles
pub mod Contract
pub mod Lut
pub mod State
pub mod Network
pub mod Score
pub mod Mutation
pub mod Candidate
pub mod Fields
pub mod Packing
pub mod Task
pub mod Parse
pub mod Random
pub mod Tests
