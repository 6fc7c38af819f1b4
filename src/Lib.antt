-- ===== src/Lib.antt =====
-- Verification of go-blockchain: a UTXO ledger with escrows and zero-knowledge contingent payments
-- (ZKCP), mined by proof of work or signed by authorities, and the spending firewall that stands
-- between an agent and its wallet.
--
-- The parts. A transaction spends outputs of earlier ones; `Sign` signs its inputs and `Verify`
-- judges it against the transactions that it names (internal/core/transaction.go,
-- transaction_input.go, transaction_output.go). Blocks hold transactions under a Merkle root
-- (block.go, merkle_tree.go); a proof of work or an authority's signature vouches for them
-- (proofofwork.go, poa.go). The chain adds and mines blocks over a storage (blockchain.go), which
-- bbolt keeps in two buckets (internal/storage). The tools of the MCP daemon (internal/mcp/tools.go)
-- ask the firewall (internal/firewall) before they spend. The constructors of payments
-- (transaction.go) collect outputs from the UTXO set (utxo_set.go) and lock new ones by Base58
-- addresses (base58.go, wallet.go). Nodes exchange blocks and transactions
-- (internal/network/server.go) and answer clients over gRPC (grpc_server.go); the indexer follows
-- escrows through the blocks (internal/indexer), and the marketplace searches its services. The
-- dashboard sends events to browsers (internal/dashboard/sse.go). An agent's daemon loads a signed
-- policy (internal/firewall), keeps a keyring, and answers JSON-RPC requests (internal/mcp).
--
-- Prelude and its children: numbers, lists, byte strings, maps, and the results of Go functions
--   (`Outcome`: a value, an error or a panic; `Running`: one that takes fuel). Go's int and int64 are
--   ℤ with `add64` and `sub64`, which wrap around.
-- Core.External: what internal/core takes from elsewhere, as parameters: SHA-256, RIPEMD-160, ECDSA
--   on P-256 and gob. The laws of ECDSA and gob are hypotheses of the theorems that need them.
-- Core.Bignum: `SetBytes` and `FillBytes`, and IntToHex of internal/core/utils.go.
-- Core.Output, Core.Transaction: outputs, inputs, transactions. `sign` and `verify` run the loops of
--   `Sign` and `Verify` with their scratch copy. Rules states what is accepted without loops, Accepts
--   proves that `verify` does just that, Values has what follows for money and escrows, Rounds and
--   Effects are about `sign`, and Signing is the way from `sign` to `verify`.
-- Core.Merkle, Core.Block, Core.Pow, Core.Poa: merkle_tree.go, block.go, proofofwork.go and poa.go.
--   The context of a search is the answers that it gives when it is polled, and the clock is an
--   argument.
-- Storage: the interface of internal/storage/storage.go with its contract, as laws. Storage.Bolt is
--   internal/storage/bolt/boltdb.go over buckets that are a parameter, and Storage.Bolt.Refines the
--   proof of the contract. The client, Core.Chain, takes the interface as a parameter.
-- Core.Chain: internal/core/blockchain.go. A chain is its tip and the state of its storage. Adding and
--   Growth are about `AddBlock`, Retarget about the difficulty in `MineBlock`, Walk about `Blocks`, and
--   Transactions, with Mined, about the transactions of a chain and `MineBlock`.
-- Core.Base58, Core.Wallet: base58.go and wallet.go, with `Lock` and the constructors of outputs.
-- Core.Wallets: wallets.go. A map is visited in its list's order; Saved is about the file.
-- Core.Creation: creating a chain with its genesis block, and opening it.
-- Core.Utxo: utxo_set.go and `FindUTXO`; Unspent and Funds are about what they find.
-- Core.Payments: the constructors of transactions, and those of the escrow manager
--   (internal/marketplace). Conservation is about payments, Settlement about claims and refunds.
-- Indexer: internal/indexer. Lifecycle and Overdue are about its store of escrows.
-- Network and Network.Handlers: internal/network/server.go. A node's state includes what it has sent.
--   Requests is about messages, Mempool and Included about the mempool, Peers and its children about
--   the list of known nodes. Network.Convert is proto_converter.go. `SubmitTransaction` releases
--   its lock in between, so that the state at its second lock is an argument.
-- Firewall: internal/firewall/firewall.go. Its state is the policy, the window of entries and the
--   session's spending; `spend` is what a tool does: `Evaluate`, then `RecordTransaction` if allowed.
--   Times are nanoseconds as ℤ. Firewall.Passkey is passkey.go, with `CanonicalHash` and
--   `LoadAndVerify` of policy.go; encoding/json is a parameter.
-- Mcp and its children: internal/mcp. Mcp is the data, the answers and the daemon's state, Wallets the
--   keyring, Tools the tools, and Daemon the loop over the lines. encoding/json is a parameter; a
--   `Moment` holds what one message finds outside: the clock, a generated key, and the node's answers.
--   Effects is about the tools and Keys about the keyring; Session names the payments that lines ask
--   for, and its children prove what a session does. Replies is about the responses.
-- Network.Rpc: grpc_server.go as steps of a node, with Submitting, Minting and Balance.
-- Network.Chaos: chaos.go. A drop rate and a random number are natural numbers of one unit.
-- Dashboard: sse.go. A channel is a number, with its buffer in the broker's state. Channels and
--   Listening are about channels, Events about the text of an event.
-- Marketplace: service_catalog.go and the secrets of escrow_manager.go. Zkcp: circuit.go.
-- Api: handler.go of internal/api. A request is its method with the parameters that its handler reads.
--   Pages is about the pages of blocks.
-- Hex: encoding/hex.
-- Sample modules and Tests hold concrete stand-ins for the parameters, and the theorems at them.
--
-- Fuel. The search for a nonce, the search for the anchor block, the walk over the blocks, the levels
-- of a Merkle tree and the loop in which `handleTx` mines take fuel, and `none` is its end. That a
-- walk over a storage needs a bound is due to the code: a storage may hold blocks in a cycle. For the
-- search for a nonce, the walk and the Merkle tree there are proofs that enough fuel gives the result.
--
-- Not modelled: printing, locks, files, TLS, and the transport of HTTP and gRPC; generated code
-- (api/proto); the commands (cmd, internal/cli), which wire the parts; the dashboard's pages and the
-- metrics; the routing of HTTP requests. Of a node, `Start` and the cancelling of a search while it
-- runs are left out: a context's answers are an argument.
pub mod Prelude
pub mod Hex
pub mod Firewall
pub mod Storage
pub mod Core
pub mod Indexer
pub mod Network
pub mod Mcp
pub mod Zkcp
pub mod Api
pub mod Dashboard
pub mod Marketplace
