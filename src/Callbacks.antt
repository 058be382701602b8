-- ===== src/Callbacks.antt =====
-- The trampolines that librdkafka calls and that call the application's Python callbacks.
mod Invoke
mod Common
mod Consumer
mod Delivery
mod Dispatch
pub mod Released
pub mod Served
pub mod Rebalance
unfoldable pub use Invoke.*
unfoldable pub use Common.*
unfoldable pub use Consumer.*
unfoldable pub use Delivery.*
unfoldable pub use Dispatch.*
