-- ===== src/MatchingEngine.antt =====
-- MatchingEngineProgram (solana/ts/src/matchingEngine/index.ts).
pub mod Addresses
pub mod State
pub mod Composites
pub mod Instructions
pub mod Offers
pub mod Settle
pub mod NoAuction
pub mod Reserve
pub mod Execute
pub mod Onchain
pub mod Known
pub mod Placed
pub mod Improved
pub mod SettledBy
pub mod Executed
pub mod Admin
pub mod Fixture
mod Tests
