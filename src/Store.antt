-- ===== src/Store.antt =====
-- The state of the program: the Postgres tables, the transactions on them, and the values that the
-- use cases exchange with them. Each name is declared in a child and passed on.
mod Tables
mod Journal
mod Transactions
mod Lookups
unfoldable pub use Tables.*
unfoldable pub use Journal.*
unfoldable pub use Transactions.*
unfoldable pub use Lookups.*
