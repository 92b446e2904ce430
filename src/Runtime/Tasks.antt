-- ===== src/Runtime/Tasks.antt =====
-- The operations of reconciliation_runtime.py on the task queue. A call returns the new store;
-- `new_id` is the UUID that the insert draws, `moment` the instant that `_now` resolves to.
mod Enqueue
mod Claim
mod Finish
unfoldable pub use Enqueue.*
unfoldable pub use Claim.*
unfoldable pub use Finish.*
