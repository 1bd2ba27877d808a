-- ===== src/Adapters.antt =====
-- src/adapters: the two policies that decide when a datagram may be sent. What they have in common,
-- a budget of tokens that time refills, is Budget.
pub mod Bucket
pub mod Budget
pub mod LanPolicy
pub mod RadioPolicy
pub mod Paced
