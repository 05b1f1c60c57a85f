-- ===== src/Store.antt =====
-- blockchain/chainstore.go: the token chain's store over the side chain library's.
pub mod Database
pub mod Removal
pub mod Count
pub mod Kept
pub mod Unspent
pub mod Utxo
pub mod UtxoSet
pub mod Amount
pub mod Listing
pub mod Assets
pub mod Transactions
pub mod Reference
