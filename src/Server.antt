-- ===== src/Server.antt =====
-- The handlers of programs/Server/src/cmdreg.cpp and their registration.
pub mod Login
pub mod Query
pub mod CourseAdmin
pub mod AdminAccounts
pub mod Register
pub mod Responses
pub mod Access
pub mod Kept
pub mod OwnAccount
pub mod Pages
pub mod Session
pub mod Connection
pub mod Stored
pub mod Process
pub mod Threads
pub mod Main
mod Tests
