-- ===== src/Lib.antt =====
-- The asynchronous distributed key generation of a node, as far as it is a protocol: what a message
-- does to the state of the node and which messages go out.
--
-- A key generation has one sharing per dealer. The dealer's message is spread by a reliable broadcast
-- (acss), then each node spreads by a second broadcast the set of dealers whose sharing has ended there
-- (keyset), and a binary agreement per node (aba) decides which of these keysets count. The decisions
-- start the key derivation. A node keeps three maps: one store per round of a broadcast, one store per
-- agreement, and one session per key generation; a handler looks its store up, takes its lock, changes
-- it and sends messages. Here a handler is a function from a store to a store and a list of effects, and
-- a run is a list of messages in the order in which their handlers take the lock.
--
--   Base        numbers, lists, maps and bits that the models share
--   Bitset      keygen/common/common.go, keygen/message_handlers/keyset/common.go: sets of dealers
--   Rounds      common/adkg_common.go: the identifiers of key generations and rounds
--   Pkcs7       keygen/common/acss/acss.go: the padding in front of the erasure code
--   Messages    the messages and what a handler does with one
--   Runtime     the parameters: n, k, f, the hash functions, the erasure code, the order of a map
--   Stores      common/adkg_common.go: the three maps of a node, and how a handler uses them
--   Session     common/adkg_common.go: the session of a key generation
--   Rbc         the broadcast: the echo and ready handlers, with SharingStore of common/adkg_common.go
--   Acss        keygen/message_handlers/acss: its messages, the handlers over the map, Encode
--   Keyset      keygen/message_handlers/keyset: the same, and proposals and outputs over the session
--   Aba         keygen/message_handlers/aba: the handlers of the six votes; Aba/State is ABAState of
--               common/adkg_common.go, Aba/Decision what ends an agreement, Aba/Process the map
--   Curve       the curves of github.com/coinbase/kryptology: operations, and what is documented
--   Dealing     keygen/common/acss/acss.go, keygen/message_handlers/acss: what a dealer sends to the nodes
--               and its check; Handlers are the share, propose and output handlers
--   Coin        keygen/message_handlers/aba, keygen/common/aba/aba.go: the share of a coin, and in
--               Handlers what it decides
--   Sharing     common/sharing: Shamir and Feldman sharing of a secret, over a curve
--   KeyDerivation  keygen/message_handlers/keyderivation: the union of the accepted keysets. Keys is the
--               rest of the session and keygen/common/aba/aba.go, Proof the proof of a share of the
--               key, Share the share handler and BFTDecided
--   Consensus   tendermint/abci.go, tendermint/abci_handlers.go: the replicated state, which counts the
--               nodes' votes for public keys and assigns keys to users. Keyspace is the database,
--               Assignment and Votes the two types of transaction, Blocks the life of a block, and
--               Run a chain of blocks
--   Node        keygen/keygen_node.go: the three maps together, the end of a key generation, and in
--               Dispatch which handler gets a message; Tracker is keygen/keygen_tracker.go
--
-- Function names are those of the code in snake case (SetBit is set_bit), with on_ in front of what a
-- Process method does behind its lock, and process_ for the whole of it.
--
-- An int of the code is a number. Sets of dealers keep the 64 bits of an int, and a shift past them is
-- written out. The loop of CountBit runs on 64 rounds of fuel, which is enough since each round clears a
-- bit; the other loops are counted by the code itself. The V and R of a vote and the dealers that are
-- written into an identifier are not negative. A panic is `none` where a message can cause it.
--
-- Not modelled: the loops that wait for a keyset of a leader, the network, the chain, the start of
-- tendermint and the services around them, which are input and output. Encoding a message as JSON does
-- not fail for the structs of the protocol, so the branches for its errors are left out. Log lines are
-- left out.
pub mod Base
pub mod Bitset
pub mod Rounds
pub mod Pkcs7
pub mod Messages
pub mod Runtime
pub mod Sharing
pub mod Stores
pub mod Rbc
pub mod Session
pub mod Aba
pub mod Acss
pub mod Keyset
pub mod Node
pub mod Curve
pub mod Dealing
pub mod Coin
pub mod Consensus
pub mod KeyDerivation
