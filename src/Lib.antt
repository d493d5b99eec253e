-- ===== src/Lib.antt =====
-- Web4 v3: a peer-to-peer ledger of units that any node may issue, as it stands in core/.
--
-- The parts and their files:
--   core/canonical/encode.go: Canonical (`EncodeFields`, `encodeValue`), Canonical.Varint
--   (`writeUvarint`), Canonical.Supported and Canonical.Injective. A Go value is an `Any`, one
--   constructor for each case of the type switch.
--   core/crypto: Crypto. BLAKE3 and Ed25519 are the parameters `Primitives`, and `IsSound` is
--   what is documented of them: a signature verifies by a key that is made from a seed, as
--   `ed25519.GenerateKey` makes it, which `IsKey` says of a key. The length checks of sign.go are
--   written out.
--   core/model/amount.go: Model.Amount and Model.Amount.Exact, and Model.Amount.Scaled for its
--   floats. An amount is an integer; the functions wrap around to 64 bits as Go does.
--   core/model/types.go and ids.go: Model.Types and Model.Ids, with their preimages in
--   Model.Ids.Preimages and Model.Ids.Transactions. A [32]byte is the number below 2 ^ 256 that
--   its bytes spell (Model.Ids.Arrays).
--   core/model/protocol.go: Model.Inventory (`InventoryState` and its methods), Model.Trade
--   (`ValidateTradeTx`, `ApplyTradeTx`, with Model.Sums for its tallies) and Model.Issue
--   (`ApplyStructuralIssueTx`).
--   core/model/issue.go, transfer.go and validate.go: Model.Issue and Model.Transfer
--   (`NewIssueTx`, `ValidateIssueTx`, `NewTransferTx`, `ValidateTransferTx`), with the checks of
--   a transfer in Model.Transfer.Checks.
--   core/transport/frame.go and limits.go: Transport and Transport.RoundTrip.
--   core/node/node.go, price.go, flow.go, inventory.go and quote.go: Node, Node.State,
--   Node.State.Quiet, Node.Prices (`RefreshPrices`) and Node.Quoting (`QuoteSell`), with
--   Node.Signing (`SignQuote`).
--   core/node/intent.go: Node.Intents, Node.Intents.Preimage and Node.Intents.Signed.
--   core/node/trade.go and store.go: Node.Trade. An execution is a chain of steps
--   (Node.Trade.Step) on the two nodes and the stores: Node.Trade.Prepare is what it checks and
--   computes, Node.Trade.Execute what it does. Node.Trade.Atomic, Replay, Moves, Effects and
--   SoldOut prove what comes of it, over the steps of Node.Trade.Clean, with Node.Trade.Success
--   for what a success has gone through. A store is the interface `StoreOps`.
--   core/price: Price and Price.Market. core/policy: Policy, Policy.Loops and Policy.Accepts. The
--   floats of both, and of Model.Amount.Scaled, are the parameter `Floats`, whose laws a theorem
--   states where it needs one.
--   core/message/types.go, envelope.go and sign.go: Message, Message.Envelopes and
--   Message.Signed. payload.go and validate.go: Message.Payloads and Message.Payloads.Validated.
--   encode.go: Message.Encode and Message.Encode.Survival, where encoding/json is the record
--   `Json`, with the normal form of a payload in Message.Payloads.Sorted. `SignEnvelope` and
--   `VerifyEnvelope` take what encodes a payload as the interface `PayloadCodec`.
--   The flow records of core/model/protocol.go: Model.Flow and Model.Flow.Effects.
--   core/handler/state.go: Handler and Handler.Builds, the trade that a session builds of a
--   quote; Handler.Quotes and Handler.Quotes.Checked, quotes as they are sent and checked.
--   core/handler/handler.go and errors.go: Handler.Tasks, what the handlers work on and the steps
--   they are made of (Handler.Tasks.Steps), with rules on them in Handler.Tasks.Rules and
--   Handler.Tasks.Ends; Handler.Shadows, the peer as a node; Handler.Negotiation,
--   Handler.Settlement and Handler.Messages, the handlers and `HandleMessage`. encoding/json, the
--   random bytes and the texts of errors are parameters, in the record `Services` and the field
--   `random`.
--   core/store/json.go: Store, the disk and the documents; Store.Commands, the commands on it,
--   with rules in Store.Commands.Holds and Store.Commands.Holds.Calls; Store.Files and
--   Store.Persist (`PersistExecutedTrade`); Store.Recovery (`NewJSONStore` and
--   `recoverTransactions`). Each call of the operating system works, fails or is never made
--   because the process has ended; for `exists`, a call that fails is a file that is not there.
--   Store.Atomic and its children follow a disk where no call fails and the process may end
--   before any.
--   core/handler/session.go: Handler.Session, Handler.Session.Seen and Handler.Session.Fresh,
--   with the payloads and intents that a session keeps.
--   Base holds what these share: results, tests, lists, integers and maps. Examples runs the
--   theorems at concrete inputs, over a checksum in place of BLAKE3.
--
-- How they interact: an ID is the digest of the canonical encoding of a preimage; issues and
-- transfers are signed over the preimage; trades and structural issues are validated first and
-- then change a copy of the inventory, one holding at a time. A node quotes at its prices and
-- signs an intent for the quote; an execution checks the two signed intents and whether both
-- nodes accept the quote, prepares the trade on copies of the nodes, reserves its ID, writes it
-- to the store and then commits it. A handler lets in a message once, from its peer only, and
-- negotiates in its session: a request, a quote, an intent of each party, and the authorized
-- trade, which it executes between its node and a shadow of the peer.
--
-- A method that changes its receiver returns the new state beside its result. Go's maps are
-- association lists; loops over them follow the list, where Go leaves the order open. Every error
-- is a constructor of `Error`; its text, the index in it and the words that wrap it are left out.
--
-- Bounds: `writeUvarint` has fuel for ten bytes, which hold 64 bits. All other loops are
-- recursion on a list. A length is below 2 ^ 64, and an amount in the range of int64, where a
-- theorem says so.
--
-- Not modelled: the documents that core/store/json.go loads and saves alone, partial effects of a
-- call that fails, a second process on the files of a store, the encryption of packets, nil
-- pointers, locks (an operation is one step, as its lock makes it), random keys and nonces, JSON,
-- sockets, the command line and the simulation.
pub mod Base
pub mod Canonical
pub mod Crypto
pub mod Model
pub mod Floats
pub mod Price
pub mod Policy
pub mod Node
pub mod Message
pub mod Handler
pub mod Store
pub mod Transport
mod Examples
