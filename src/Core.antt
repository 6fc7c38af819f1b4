-- ===== src/Core.antt =====
-- internal/core: the ledger. Each child is about one or two files of that package.
pub mod External
pub mod Bignum
pub mod Base58
pub mod Output
pub mod Transaction
pub mod Wallet
pub mod Wallets
pub mod Sample
pub mod Merkle
pub mod Block
pub mod Pow
pub mod Poa
pub mod Chain
pub mod Utxo
pub mod Payments
pub mod Creation
mod Tests
