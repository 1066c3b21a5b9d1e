-- ===== src/Solver.antt =====
-- The off-chain solver (solver/src): how it prepares, sends and retries transactions.
pub mod Io
pub mod Transactions
pub mod SendTx
pub mod Config
pub mod Json
pub mod Validate
pub mod AppConfig
pub mod CachedBlockhash
pub mod Relayer
pub mod PostVaa
pub mod PlaceOffer
pub mod Pricing
pub mod Wormscan
pub mod Evm
pub mod Settle
pub mod ImproveOffer
