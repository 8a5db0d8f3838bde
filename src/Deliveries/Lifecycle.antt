-- ===== src/Deliveries/Lifecycle.antt =====
-- The life of the deliveries over any sequence of requests.
mod Next
mod Parts
mod Rules
mod Requests
pub use Next.*
pub use Parts.*
pub use Rules.*
pub use Requests.*
