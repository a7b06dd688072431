-- ===== src/Tests.antt =====
-- Runs of the model at concrete inputs.
mod Buckets
mod Queues
mod Statuses
mod Rounds
mod Clocks
mod Objects
mod Webhooks
mod Limits
mod Links
mod Clients
mod Uploads
mod Transports
mod Bots
mod Arrivals
mod Notifications
mod Comments
