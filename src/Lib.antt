-- ===== src/Lib.antt =====
-- fast-wallet: a model of the wallet's core in src/nonce.rs, src/inflight.rs, src/transaction.rs,
-- src/signer.rs, src/crypto.rs, src/error.rs, src/error/broadcast.rs, src/broadcast.rs, src/warm.rs, src/rpc.rs with
-- its modules under src/rpc/, and src/wallet.rs.
--
-- The wallet gives each transaction a nonce (tracker), holds it in a guard until the transaction is settled
-- (reservation), records what it signed (in-flight ledger), builds and signs (transaction), sends to several
-- endpoints (broadcast, or a batch client over the rpc clients), and reads from an error whether the nonce can be
-- given back (errors). A builder makes it from a key, endpoint URLs and settings (signer, wallet).
--
-- Base         numbers, tests, lists and machine words: the native numbers with `% 2 ^ 64`, and U256's
--              saturating operations, written out where the source has them.
-- NonceSet     the gaps of a tracker, BTreeSet<u64> as a strictly ascending list.
-- OrderedMap   BTreeMap and the keys of a manager, as lists of entries.
-- Tracker      NonceTracker of src/nonce.rs: a record of its five counters, each operation one step on it. The
--              loop of collapse_top_gaps recurses on the counter. Invariant, Availability (which nonces can be
--              handed out), Pending and Calls hold the laws.
-- Reservation  ReservedNonce and its states; Fleet runs reservations, releases and syncs in any order.
-- Manager      NonceManager: one tracker for each address. Single: SingleAddressNonceManager, which is one tracker.
-- Ledger       InflightNonceLedger of src/inflight.rs, the clock being an argument. Bounds, Records and Lowest.
-- Fees         bump_u256 of src/transaction.rs and compute_cancel_fees of src/wallet.rs.
-- Transaction  src/transaction.rs: the three forms, Encode and Forms (the RLP encoders and their lengths), Standards
--              (the lists that the EIPs prescribe, the specification), Request and Sign (with sign_hash and
--              sign_hash_typed of src/signer.rs). Framing, Scalar, Identity and Eip155 hold the laws.
-- Signer       src/signer.rs: the sources of a key, and what is signed besides transactions; Personal is about signed
--              messages, Hex about fast_hex of src/crypto.rs.
-- Errors       WalletError and its texts (Display), the classifiers (Classify; the release policy
--              is_definitive_precheck_rejection is src/wallet.rs's) and the nonce-too-low parsers (Parse).
--              Needles searches texts; Release is about when a nonce is given back, Digits and RoundTrip about what
--              is printed and read back.
-- Broadcast    src/broadcast.rs: Endpoint and Presets, the four strategies (Strategy), the builder (Builder).
--              endpoint_host is src/rpc.rs's. Links holds the connections: call with its warm guard, sends and
--              warmups of one endpoint. Outcome, Winner, Private, Order, Host, Calls and Spared hold the laws.
-- Rpc          src/rpc.rs and src/rpc/: Redact (redact_urls), Warm (src/warm.rs), Client (RpcClient and its
--              requests, what the network does with one being an Exchange), Send (raw transactions to one
--              endpoint), Fanout (the loop of collect_broadcast over the replies in the order of their arrival),
--              Clients (BatchRpcClient), Reads (nonces, receipts), Warmups (of a batch), Detail and Observe
--              (src/rpc/detail.rs and src/rpc/observation.rs: what an observer is told of a broadcast). Cut,
--              Hidden, Verdicts, Leaks, Receipts, Warmth, Distinct, Serves and Rows hold the laws.
-- Wallet       src/wallet.rs: Config (WalletConfig and the builder's setters), Build (the constructors, both
--              builds, and which client serves what), Status (self_check, warmup), Connections (warmup_connections
--              and the full preheats), Send (sign, send_signed and the nonce syncs), Broadcast (how a transaction
--              reaches its endpoints, and send_signed_detailed), Preheat (PreheatedContext), Presend and Detailed
--              (the calls with a context), Verify (verify_broadcast), Gas (the price caches), Optimistic (the convenience
--              calls), Stall (nonce_health_check) and Replace (replace_stalled_nonce), both with the steps of other
--              tasks during their waits as parameters. Nonces, Freed, Agreed, Kept, Tracked, Prices, Stalled, Guards,
--              Justified, Routes, Builds, Sharing and Checked hold the laws.
--
-- Texts and byte strings are lists of numbers. Code of other crates is a parameter: alloy's RLP (record Rlp, whose
-- length functions are documented to tell the lengths: IsExact), Keccak and the secp256k1 signer (record Crypto),
-- serde_json's text of a broadcast failure, the order in which racing sends complete (a permutation of
-- the sends), hex and the printing of hashes (record HashTools), hex, Keccak and the curve for keys (record Keys), the
-- credentials that the process sees (record Process), the HTTP client's construction and its URL parser.
-- Fuel appears in printing a u64, where 20 digits are enough for every 64-bit word, and in redact_urls, whose
-- rounds each consume a byte, so that one more than the message has bytes are enough.
--
-- Not modelled: HTTP and JSON themselves (an Exchange, a CallOutcome, a Body or a reply stands for what they
-- give), with the parameters that calls send; TLS; the loops of background tasks; the command line, logging and
-- Debug texts, which are I/O; the clearing of keys in memory; the balance as a floating-point number;
-- interleavings of the tracker's atomic operations inside one call, each call being one step here; the side-by-
-- side sends of send_batch, and the warmups of several endpoints, which settle in order here; and the time that
-- the polls of verify_broadcast take.
pub mod Base
pub mod NonceSet
pub mod Tracker
pub mod Reservation
pub mod Rpc
pub mod Manager
pub mod OrderedMap
pub mod Ledger
pub mod Errors
pub mod Fees
pub mod Transaction
pub mod Broadcast
pub mod Signer
pub mod Wallet
