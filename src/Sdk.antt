-- ===== src/Sdk.antt =====
-- modules/github-bots/sdk: the bots and their client of GitHub.
pub mod Bots
pub mod Registering
pub mod Clients
pub mod Contents
pub mod Replies
