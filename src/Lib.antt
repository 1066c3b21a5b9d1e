-- ===== src/Lib.antt =====
-- The off-chain TypeScript of the liquidity layer: the client library of the Solana programs (solana/ts)
-- and the solver that plays in their auctions (solver).
--
-- The program. Fast orders arrive as VAAs, which the spy hands to the solver. The solver prices an order
-- and opens its auction with an offer; other offers follow, a slot ends the auction, and the order is
-- executed and the auction settled once the finalized VAA is there. The client library reads the accounts
-- of the matching engine, encodes and decodes the messages of Circle's CCTP, computes deposits and
-- penalties as the on-chain program does, and makes the transactions that the solver sends.
--
-- Which file models what; a definition has its function's name in snake case, a class its own name.
--   Prelude (Tests, Lists, Results, Int, Maps): Boolean tests and lists over the native numbers, exceptions
--     as values, bigint as a data type of integers with JavaScript's truncating division, Map as an
--     association list in insertion order.
--   Buffer (Laws, Chunks): Node's Buffer as a list of bytes, with a RangeError for a read or write past
--     the end; a byte string as a row of fields, which the layouts of all accounts and messages use.
--   ArrayQueue: the circular queue of solana/ts/src/utils.ts. Slots and Resize say what it contains,
--     Refine compares it with a plain queue.
--   EventQueue: onEventCpi of solana/ts/src/matchingEngine/index.ts, whose transactions wait in an
--     ArrayQueue; the asynchronous slot callback is cut at its awaits. Overlap has two of them at once.
--   Uint64: the number and hash conversions of solana/ts/src/common/index.ts.
--   Auction: the records of solana/ts/src/matchingEngine/state/Auction.ts and AuctionHistory.ts.
--   AuctionHistory: fetchAuctionHistory and fetchAuctionHistoryHeader of
--     solana/ts/src/matchingEngine/index.ts, against the layout that the Rust program stores.
--   Penalty: computeDepositPenalty, computeMinOfferDelta, computeNotionalSecurityDeposit, same file.
--   Cctp: solana/ts/src/cctp/messages.ts. Cctp/Programs: the addresses and the rows of accounts of the two
--     CCTP program clients, in solana/ts/src/cctp/messageTransmitter and tokenMessengerMinter.
--   Solana: what the clients use of web3.js.
--   MatchingEngine: the client of solana/ts/src/matchingEngine/index.ts. Addresses has the addresses derived
--     from seeds, State the accounts of its state folder, Composites the groups of accounts, Instructions an
--     instruction as its name, arguments and accounts, and Offers, Settle, NoAuction, Reserve and
--     Execute the functions that make instructions. Onchain is the independent description: what the Rust program
--     (solana/programs/matching-engine/src) asks of the accounts. Known says what an order that can be
--     served has on chain; Placed, Improved, SettledBy and Executed compare the two sides. Admin has the
--     instructions of the owner and the admins in the same way: Build makes them, Accepted is the Rust
--     program's side, Proposed follows a proposal.
--   TokenRouter: preparing and closing an order in solana/ts/src/tokenRouter/index.ts; Market has the placing
--     of an order by CCTP, Redeem the redeeming of fills, and Owner the instructions of the owner. Prepared,
--     Placed, Redeem/Onchain and Owner/Onchain have the Rust side (solana/programs/token-router/src); Ownership
--     follows the owner through the steps of the Rust program.
--   Messages: solana/ts/src/common/messages, and the solver's parsers in solver/src/utils/index.ts.
--   Vaa: VaaAccount of solana/ts/src/wormhole/index.ts.
--   Spy: VaaSpy of solana/ts/src/wormhole/spy.ts; a stream is a list of events with their times,
--     which ends with an exception of the SDK.
--   SlotAuctions: solver/src/executeOrder/app.ts, the slot-ordered auctions and the two callbacks; a
--     history of auction updates and slot changes is a list of events.
--   Solver: solver/src/utils, solver/src/improveOffer/app.ts and parts of solver/src/containers. Io is
--     asynchronous code, a function of the state of the world with a result or an exception; Transactions
--     and Config are the shared records; SendTx, PostVaa, Pricing, PlaceOffer, ImproveOffer, Wormscan, Evm
--     and Settle model sendTx.ts, preparePostVaaTx.ts, the two price tests, placeInitialOffer.ts, the
--     callback of improveOffer/app.ts, whose test of the end is bn.js's, wormscan.ts,
--     evm/wormholeCctp.ts and settleAuction.ts. PlaceOffer and Settle use the transactions of Transactions, PostVaa's theorem speaks of the message that SendTx
--     compiles, and PlaceOffer uses Penalty's deposit. Json, Validate and AppConfig model config.ts: a parsed
--     JSON value, validateEnvironmentConfig and AppConfig. Relayer models vaaAuctionRelayer/app.ts; it reads
--     AppConfig and Messages and runs the handlers of PlaceOffer and Settle. CachedBlockhash models
--     containers/CachedBlockhash.ts, where a request is answered at any later time. PlaceOffer, Settle
--     and ImproveOffer take the maker of the instructions as an argument or a field; Client is the one of the
--     matching engine's client, and Accepted compares the whole with the Rust program.
--
-- Numbers. A bigint or BN is an unbounded integer; where the code writes a width (writeUInt32BE, a u64)
-- the bound is written out and what is out of range throws. A JavaScript number that the code uses as an
-- integer is a natural number. Doubles occur in the price parameters only, as the integer that BigInt
-- makes of their product with 10000, or its RangeError.
--
-- The chain. The functions that make instructions fetch accounts; a ledger is one state of the chain, which
-- all fetches of a call see. Seeds have 32 bytes at most, so an address is always found.
--
-- Fuel. Loops are recursion on the data they run over, on the count that the code bounds them with, or on
-- fuel in two places: the decimal text of a slot, whose fuel is the number itself plus one, which is more
-- than it has digits; and the attestation loop, which the code does not bound, where the theorem says
-- which fuel is enough.
--
-- Not modelled. The EVM and Solana programs themselves (Solidity and Rust), generated interfaces, tests
-- and scripts, and the functions that only hand accounts to Anchor. The network, web3.js, bn.js's lten,
-- ethers, the Wormhole SDK and the token program are parameters: records of operations, or functions. Not
-- there yet: the client of the upgrade manager, and the EVM client.
-- Log lines and pauses have no effect on a result and are left out.
pub mod Prelude
pub mod Buffer
pub mod ArrayQueue
pub mod Uint64
pub mod Auction
pub mod Solana
pub mod MatchingEngine
pub mod TokenRouter
pub mod AuctionHistory
pub mod Penalty
pub mod Cctp
pub mod SlotAuctions
pub mod Vaa
pub mod Messages
pub mod Spy
pub mod EventQueue
pub mod Solver
