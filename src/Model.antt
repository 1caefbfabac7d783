-- ===== src/Model.antt =====
-- The rows of the database: the structs of internal/model. A `uint` id and a time are native
-- numbers, a `*time.Time` is an option, and a string type with named constants is a data type.
mod Strategies
mod Apps
mod Tasks
mod Accounts
unfoldable pub use Strategies.*
unfoldable pub use Apps.*
unfoldable pub use Tasks.*
unfoldable pub use Accounts.*
