-- ===== src/Commands.antt =====
-- The command handlers (src/commands). A handler takes the database, the arguments and the readings
-- of the clocks, and returns the reply with the database it leaves. The dispatcher has checked the
-- number of arguments, so that an index below it is never out of range.
pub mod Value
pub mod Text
pub mod Strings
pub mod Keys
pub mod Held
pub mod Tables
pub mod Lists
pub mod Hashes
pub mod Sets
pub mod Dispatcher
mod Examples
