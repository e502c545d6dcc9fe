-- ===== src/Lifecycle.antt =====
-- The life of a job under all handlers and workers at once: the invariant of the stored record, what
-- each program may do to it, and the system of any number of them.
pub mod Invariant
pub mod Safe
pub mod Keys
pub mod Orders
pub mod Locks
pub mod PayGate
pub mod Comparing
pub mod Handlers
pub mod Notifying
pub mod Payment
pub mod System
