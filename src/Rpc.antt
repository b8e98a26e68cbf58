-- ===== src/Rpc.antt =====
-- internal/rpc: the RPC handlers over the storage.
pub mod Reply
pub mod Caller
pub mod Auth
pub mod Registry
pub mod Updates
pub mod Staging
pub mod BotFather
pub mod Server
pub mod Pushing
pub mod Messages
pub mod Dialogs
pub mod Drafts
pub mod Contacts
pub mod Account
pub mod Media
pub mod Naming
pub mod Drafting
pub mod Sending
pub mod Uploading
pub mod Storing
pub mod Filing
pub mod Catching
pub mod Sparing
pub mod Engine
pub mod Making
pub mod Codes
pub mod Keys
pub mod Login
pub mod Live
mod Tests
mod ServerTests
