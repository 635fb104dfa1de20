-- ===== src/Tests.antt =====
-- Concrete runs: every theorem with binders is applied to a small input that satisfies its hypotheses.
mod Instances
mod Codecs
mod Transfers
mod Failures
mod Sessions
mod Saving
mod Exchanges
mod FileNames
mod Batches
mod Preferences
mod Links
mod Loads
mod Reconnects
mod Relays
