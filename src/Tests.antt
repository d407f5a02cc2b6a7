-- ===== src/Tests.antt =====
-- The theorems at concrete requests, clusters and queues, and runs of the handlers.
mod Memory
mod Requests
mod Queue
mod Handlers
mod Status
mod Processes
mod Informers
mod Clients
mod Schemes
mod Copies
mod Retries
mod Reactions
mod Programs
mod Serving
mod Turns
