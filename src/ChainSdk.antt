-- ===== src/ChainSdk.antt =====
-- lib/ag-solo/chain-cosmos-sdk.js: the connection of a solo machine to a chain. A child for the
-- queue of helper runs, for the loop that retries a run, and for the shuffle of the addresses, and
-- for what is done through them.
pub mod Queue
pub mod Retry
pub mod Shuffle
pub mod Link
