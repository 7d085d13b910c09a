-- ===== src/Lib.antt =====
-- OneTUI: a keyboard-driven terminal browser for databases and message streams.
--
-- Values that arrive from a stream are decoded by a schema, statements that are typed into an editor
-- are parsed and turned into requests, and what comes back is shown as pages. The models are
-- functions on the bytes or characters of their input. A Rust `Result` is an `Outcome`
-- (`Base/Result.antt`), where `err` is a returned error, `panicked` a panic, and `stuck` marks a loop
-- whose fuel ran out, which no run of the program corresponds to.
--
-- Files, and the code that they are about:
-- - `Base`: numbers, lists and outcomes that all parts share.
-- - `Reader`: a monad over the rest of an input and a budget, with the loops of the two scanners and
--   the laws they obey (`take` of `crates/avro/src/bounds.rs`).
-- - `Avro`: `crates/avro/src`: `Budget` (bounds.rs), `Long`, `Scan` (`long`, `scan`, `scan_blocks` of
--   avro.rs), `Decoder` (`decode` of avro.rs, and the bounded error of lib.rs).
-- - `Protobuf`: `crates/protobuf/src`: `Budget` (bounds.rs), `Scan` (protobuf.rs), `Source` (the check
--   of source.rs before a source is compiled).
-- - `Text`: the methods of `str` that the editors use; `Text/Headers` and `Text/Payload` are the header
--   loop, the body and the payload decoder that the statement editors have in common.
-- - `Core`: pages and `display` of `crates/core/src`.
-- - `RabbitMq`: `crates/rabbitmq/src/statement.rs` and `endpoint` of config.rs. `Statement`, `Parse`,
--   `Request` and `Response` follow a statement from its text to its answer.
-- - `Nats`: `crates/nats/src/statement.rs` (`Parse`), and replay.rs with `validate_subject` of
--   core_subscription.rs (`Replay`).
-- - `Kafka`: `crates/kafka/src/statement.rs` with `valid_topic` of browse.rs.
-- - `HttpQuery`: `crates/http-query/src/lib.rs`.
-- - `Tui`: `crates/tui/src`: `Value` (value.rs), `Table` (`View::reindex`), `Session` (app.rs: the view,
--   its requests and `rebuild`; `Pages`: loading, turning and leaving pages; `Follow`: follow.rs;
--   `Filter`: the filter as it is typed), `History` (browsing and recording of queries, history.rs), and `Editor` (query.rs).
-- - `Catalog`: the checks of `crates/schema-source/src/lib.rs`.
--
-- Fuel: the scanners recurse on 34 levels, which the depth bound of 32 never exhausts; their loops
-- and the header loop have the length of the input as fuel, and each round takes a part of it.
--
-- The session is a state that each action and each answer takes to the next one; `Tui/Session/Reach`
-- and `Tui/Session/Stream` are the states that sequences of them reach. `request` there stays what is
-- awaited after the worker has taken it, and a request is answered once. Offsets, counts and times are
-- numbers from 0 on, with the bounds of the source's integers where it adds to them. A page's rows may
-- have any number of cells; a sort by a column that a row lacks is the panic of the index.
--
-- Parameters: apache_avro (names and the native reader), prost (keys and varints), base64, http, url,
-- serde_json, unicode_segmentation and the RFC 3339 reader of async_nats, each as a record or a
-- function that the definitions take.
-- The methods of `str` are modelled on code points, with UTF-8 where bytes are read.
--
-- Not modelled: connections, asynchronous calls and the terminal's drawing, which are input and output;
-- Avro's reader schemas (reader.rs), and with them the rest of `Decoder::decode` of lib.rs; most error
-- texts, of which only the kind is kept; the menus, dialogs, details and previews of the terminal, and
-- opening and leaving views; and the mapping of rows of the SQL and document stores.
pub mod Base
pub mod Reader
pub mod Text
pub mod Avro
pub mod Protobuf
pub mod Core
pub mod RabbitMq
pub mod Kafka
pub mod Nats
pub mod Catalog
pub mod HttpQuery
pub mod Tui
