-- ===== src/Tests.antt =====
-- Examples: each theorem at an input where its hypotheses hold, and runs of the definitions.
pub mod Room
mod Parsing
mod Lists
mod Serving
mod Sessions
mod Running
pub mod Talking
mod Clients
mod Starting
mod Reports
mod Naming
