-- ===== src/Tests.antt =====
-- Concrete runs of the model, and its theorems at concrete inputs.
mod Data
mod Names
mod Messages
mod Caches
mod Servers
mod Validators
mod Zones
mod Resolvers
mod Https
mod Starts
mod Services
mod Replies
mod Aliases
mod Denials
