-- ===== src/Machine.antt =====
-- proto/machine.py: the sans-io session machine.
pub mod Types
pub mod Streams
pub mod Outbound
pub mod Answers
pub mod Bringup
pub mod Inbound
pub mod Ids
pub mod Framing
pub mod Reassembly
