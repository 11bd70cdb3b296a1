-- ===== src/Lib.antt =====
-- Verification of ontological-db, an ontology graph database inside PostgreSQL.
--
-- Id models engine/src/id.rs, the packing of shard, type and local id into one `i64`.
-- PackStream models bolt/src/packstream.rs, the wire format of the Bolt gateway: Value and Encode
-- are the values and their encoding, Reader the decoder, Message the chunked framing, Chunked the chunks of a message as the protocol has them. The other
-- modules below PackStream hold proofs. read_value has fuel for 65 nested calls, one more than the
-- nesting the source allows, and read_message for a chunk header in every byte of the stream.
-- Session models bolt/src/session.rs, one connection of the gateway. Handshake is the negotiation of
-- the version, State the struct Session with the failures and the actions on it, Query the queries
-- and transactions, Serve the messages, dispatch and the loop run; Values and Json are the values
-- that pass to the engine and back, Settings the keys of tx_metadata, Prefix the prefixes EXPLAIN and
-- PROFILE, which Plans describes. Postgres is the parameter for PostgreSQL and its client library: each call reads and
-- changes a world; Transactions states what PostgreSQL's documentation says of transactions. The
-- loops are over lists of messages, records and settings and need no fuel but that of trim_start,
-- the length of the text.
-- Listener models the loop of bolt/src/main.rs that admits connections and the end of its threads, as
-- steps in any order, with the count of open sessions.
-- Labeling models engine/src/catalog/labeling.rs, the interval labels that answer whether one type
-- inherits from another: load_dag builds the graph from the rows of the catalog, relabel is
-- relabel_graph, walk its search from the roots and assign the numbering, is_subtype the query
-- og_is_subtype over the rows of one graph. The nesting of assign is bounded by the number of types
-- and the rounds of walk by the limit that the source tests, so the fuel of both is enough. Below
-- it, Paths defines inheritance, Segments and Search the rows of a stretch of the cursor, Reachable
-- and Walks the search, Queries, Subtypes and Errors what follows; Listing models og_subtypes and
-- og_supertypes; Loading is about load_dag.
-- Traverse models engine/src/storage/traverse.rs. Heap is the search by levels over the
-- rows of og_data.og_adj, with one round for each depth up to maxhop; Levels defines walks along those
-- rows, Steps, Reach, Search and Answers prove what the search reports. Compressed is the adjacency
-- that pack builds; Counting, Stretches and Packing are about it. Csr is the compiled graph, with ids in
-- the rows' order of numbers, and the graph that the backend holds; CsrReach is og_csr_reach over it.
-- Marks is about the bits of visited nodes, Simulation about the search by levels beside that of Heap,
-- Positions about the places of ids, Picks about the rows that are packed,
-- and CsrAnswers and Refines about what og_csr_reach reports.
-- Hops is the bidirectional og_csr_hops, with fuel for twice maxhop levels and one more: a level adds a
-- hop to one side, up to maxhop, or empties its frontier. Scanned and Touching are about one level,
-- Distances and Meetings about the two sides, Shortest, Alternating, Turning and HopCounts about the loop
-- and its answer. That og_data.og_adj holds every edge in both directions is a hypothesis there.
-- Cypher models engine/src/cypher/lexer.rs: Scan its scanners, Lexer the method tokenize. What the
-- standard library knows of letters, numerals and decimal fractions is a parameter. tokens has fuel
-- for a token in every byte and Eof; Progress shows that each token takes a byte.
-- Ast has the expressions of engine/src/cypher/ast.rs; Eval, Operations and Evaluator model
-- engine/src/cypher/eval.rs, the values of the write clauses and the function eval, with floating-point
-- numbers, the printer of serde_json, Unicode and the clock as the parameter Library. Reads, Scopes,
-- Callable, Defined, Truths and Quantifiers are about eval.
-- Sql models the quoting of literals and names in engine/src/spiu.rs; Sql.Syntax is the documented
-- syntax of quoted texts, to which it quotes, but for the cut of names to 63 bytes.
-- Fabric models the dollar quotes of engine/src/fabric/sqlish.rs; dq has fuel for a tag with more digits
-- than the text has bytes. Fabric.Dollars states the documented syntax and is about both.
-- Text.Utf8 and Text.Strings model the decoding of UTF-8 and the methods of `str` that the source takes
-- from Rust's standard library. Session.Json is serde_json's value, as its documentation describes it.
-- Base holds what the modules share.
--
-- Not modelled: the SQL gateway, the parser of Cypher, the compilers of Cypher and TypeQL and whatever
-- else builds SQL text or runs it in PostgreSQL, and sockets.
pub mod Base
pub mod Text
pub mod Id
pub mod PackStream
pub mod Session
pub mod Listener
pub mod Labeling
pub mod Traverse
pub mod Cypher
pub mod Sql
pub mod Fabric
