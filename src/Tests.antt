-- ===== src/Tests.antt =====
-- The theorems at concrete inputs, and the test data for them.
mod Data
mod Engine
mod Algorithm
mod Storage
mod Strings
mod Api
mod Handler
mod Redis
mod Missing
mod Config
mod Errors
mod Server
mod Shutdown
