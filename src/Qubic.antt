-- ===== src/Qubic.antt =====
-- src/qubic/direct_node.cpp and direct_node.hpp: the client of a direct node of the network, from
-- the bytes of a frame up to the submission of a solution.
pub mod Types
pub mod Wire
pub mod Frame
pub mod Messages
pub mod Work
pub mod Submission
pub mod Solution
pub mod Action
pub mod Connection
pub mod Client
pub mod Sending
pub mod Tests
