-- ===== src/Models.antt =====
-- The rows of the database (app/core/models/), one module for each file of models. A row's id is
-- its key in its table and no field of the record.
mod Pieces
mod Transfers
mod Payments
mod Tasks
mod Dispatch
mod Users
mod Services
unfoldable pub use Pieces.*
unfoldable pub use Transfers.*
unfoldable pub use Payments.*
unfoldable pub use Tasks.*
unfoldable pub use Dispatch.*
unfoldable pub use Users.*
unfoldable pub use Services.*
