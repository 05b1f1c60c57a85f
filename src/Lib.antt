-- ===== src/Lib.antt =====
-- The token side chain node of Elastos: the rules for transactions, the store of the chain, the
-- filling of blocks, and the encoding of outputs.
--
-- The parts and their files:
--   Validator     mempool/validator.go: the checks on a transaction. A check is a function into
--                 `Outcome Error Unit`: passed, an error, or a run-time panic.
--   Store         blockchain/chainstore.go: unspent outputs, assets and transactions in a key-value
--                 store. An operation takes the store before the block and gives the changes of the
--                 batch, as a list of puts and deletes; `commit` is what they leave. The two maps of
--                 unspent outputs are Store/Unspent (`persistUnspend`, by transaction) and
--                 Store/UtxoSet (`persistUnspendUTXOs`, by address, asset and height).
--   Fees          mempool/feehelper.go: `GenerateBlockTransactions`.
--   Wire          core/outputhelper.go: `serializeOutput`, `deserializeOutput`.
--   Service       service/service.go, service/types.go: the JSON-RPC actions of the token chain, over
--                 the store: balances, unspent outputs, assets, transactions and payloads as texts.
--   Params        params/params.go: the parameters of the three networks.
--   Config        config.go: what the file config.json makes of them; the sizes of log.go.
--   Bloom         bloom/txfilter.go: a filter that may not be loaded.
--   Types         the structs of the side chain library that the source reads.
--   Library       what the source calls of that library, as a record of parameters with their
--                 documented laws; Format holds the primitive encodings and Texts the texts of
--                 amounts, hashes and addresses in the same way.
--   Base          lists, outcomes, int64, big integers, decimal texts, maps.
--   Tests         sample parameters, and every theorem at a concrete input.
--
-- The validator reads the store that the chain store writes; Fees splits the fees so that the
-- coinbase meets the rule of the validator. The service lists what the store has written, and the
-- fee limits of the validator are those of the configuration.
--
-- Conventions. A Fixed64 is an int64, and its sums wrap around; a big.Int is an integer. float64
-- occurs as `float64(x) * 0.3` alone, and Base/Float computes it with its two roundings. A Go map is
-- an association list in the order of insertion. Go visits a map in any order: where that shows in an
-- answer (ListUnspent, GetAssetList), the order is a parameter, and elsewhere the loop runs in the
-- order of insertion. Digits and bytes of a number are computed on fuel equal to the number, which
-- is enough as each step divides it; the float64 rounding has fuel 128, above the 118 bits of any
-- product there.
--
-- Not modelled: main.go, which builds the services and registers the actions; the loggers; the
-- proof of work in the header of the genesis block, which is of the main chain library's types; the
-- constructors that only fill a struct or register functions. The peer-to-peer, consensus, bloom
-- filter and database code is a library's.
pub mod Base
pub mod Types
pub mod Library
pub mod Validator
pub mod Format
pub mod Texts
pub mod Wire
pub mod Store
pub mod Fees
pub mod Service
pub mod Params
pub mod Config
pub mod Bloom
pub mod Tests
