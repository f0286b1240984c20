-- ===== src/Tests.antt =====
-- Runs of the model at concrete inputs, and the theorems at inputs where their hypotheses hold.
mod Fixtures
mod Codecs
mod StateMap
mod Lifecycle
mod Replicas
mod EarlySet
mod Server
mod Threads
mod Stream
mod Connections
mod Answers
mod Tcp
mod Loopback
mod Sizes
mod TestData
