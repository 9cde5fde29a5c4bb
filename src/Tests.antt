-- ===== src/Tests.antt =====
-- Runs of the model on concrete inputs, and the theorems applied where their hypotheses hold.
mod Service
mod Registry
mod Bus
mod Single
mod Clients
mod Console
mod Threads
mod Handlers
mod Logger
mod Journal
mod UnitTests
