-- ===== src/Lib.antt =====
-- RustFox: an API client with a mock server, tests and load tests. This library models the parts
-- of it that carry its own logic, and proves what makes them correct.
--
-- Core models crates/fox-core/src: External holds what is taken from outside (clock, random
-- draws, UUIDs, case mappings), Model and Method the request types of model.rs, Variable the
-- variables of variable.rs (`{{name}}`, built-in values and sequence counters), Curl the import
-- of cURL commands of curl_parser.rs, Url the URLs of util.rs, Json the JSON values of
-- serde_json. Http models crates/fox-http/src: Cookie the jar of cookie.rs, Ws the WebSocket
-- client of ws_client.rs with the table of crates/fox-storage/src/repository/ws_messages.rs,
-- Signature the dynamic signature of signature.rs. Sign models crates/fox-sign/src: Keyed the
-- signatures with an access key and Hawk, Aws those of AWS, Digest the reading of a Digest
-- challenge and the answer to it. Codegen models crates/fox-codegen/src: Naming, Types, Registry
-- and Emit the type definitions from a JSON sample (json_types), Escape and Api the escaping,
-- URLs and headers of util.rs and the requests of model.rs, Curl the command of
-- generators/curl.rs. Mock models crates/fox-mock/src/server.rs: Definition the definitions,
-- Match and Resolve the plain matching on a list, Store the compiled and indexed matching that
-- the server runs, Template the bodies, Server the handler and `start`. Test models
-- crates/fox-test/src: Pool the tasks that `run_load_with` (load.rs) and `run_collection`
-- (runner.rs) both spawn, Load and Collection what each reports, Ordering the order in which
-- endpoints are run, Assert the assertions and extractions of assert.rs and extract.rs, Endpoint
-- the test of one endpoint (`run_one`). Oauth models crates/fox-oauth/src, the cache of tokens
-- and the access token of a request. Prelude holds the shared helpers. Storage models the table
-- of folders of crates/fox-storage/src/repository/folders.rs, with the foreign keys of
-- crates/fox-storage/migrations/0001_init.sql checked behind each statement. The test of an endpoint brings
-- variables, assertions and extractions together over a table that other workers may change
-- between the times at which it holds the lock. The mock handler is the one that uses matching
-- and templates together; the load test and the collection run share the pool. The generated
-- cURL commands meet the import in Codegen.Curl.Import.
--
-- Text is a list of code points. State is passed: the counters with the number of draws made are
-- a World, the jar is a list of slots in place of a hash map, the store is a record. Each
-- outside draw gets the number of the draws before it, so that two of them may differ. The pool
-- is a step relation in which the tasks interleave in any order and the cancel token may fire at
-- any time; its channel is first in, first out, and bounded. The WebSocket client is a record
-- that `advance` takes from input to input: what its task awaits and the calls of its users are
-- inputs, in any order, and the value of the stop signal changes only while a receiver is
-- subscribed, as in `tokio`. Code that may panic returns `Fallible`. Loops over text run on fuel
-- one above the length of the text, which is enough since each round takes at least one
-- character; the resolver also stops at depth 10, as the source does. The search for a free
-- record name runs on fuel one above the number of names in use, which is enough since the
-- suffixed names differ.
--
-- The recursive query of the folders runs on fuel, which is enough above the rank of the folder
-- if each child has a lower rank than its parent.
--
-- Parameters: `shell_words::split` and the JSON check of the cURL import, the date parser of the
-- cookies, the `http` crate's rules for statuses and headers, the order of durations, hash
-- functions and base64, URL parsing in the signatures, the JSON parser and printer, JSONPath,
-- regular expressions, floating-point numbers, the answers of a token endpoint, and the Unicode
-- properties of characters.
--
-- Not modelled: floating-point averages and rates, logs, progress callbacks, the HTTP framework
-- and client, the handshake and the frames on the wire of a WebSocket, the rest of the storage
-- layer, the request generators of other languages and the older `render`, gRPC, the
-- authorization of OAuth in the browser, OpenAPI and Postman files, backups, the agent and MCP
-- servers, the script sandbox, the desktop shell and the frontend.
mod Prelude
pub mod Core
pub mod Codegen
pub mod Http
pub mod Mock
pub mod Oauth
pub mod Sign
pub mod Storage
pub mod Test
