-- ===== src/Lib.antt =====
-- webmetro relays live WebM streams: a server takes WebM from one client, cuts it into chunks
-- (the initialization segment, and clusters), and sends these to the listeners of a channel. This
-- library models the code that does the work, from the bytes up:
--
--   * the EBML codec (src/ebml.rs): Ebml/Varint (`decode_varint`, `encode_varint`,
--     `encode_varint_4`), Ebml/Tag (`decode_tag`, `decode_uint`, `encode_element`,
--     `encode_tag_header`, `encode_bytes`, `encode_integer`), Ebml/Element (`EbmlLayout`, the
--     trait `FromEbml` with `check_space` and `decode_element`). A byte is a number below 256.
--   * the WebM elements (src/webm.rs): Webm. `data` of a block is `payload`, and the bits of an
--     `i16` are a number below 2 ^ 16.
--   * the slice iterator (src/iterator.rs): Iterator.
--   * the stream parser (src/stream_parser.rs): StreamParser. The stream is the list of what its
--     polls give: `later` (pending), `chunk` (a buffer), `failed` (an error), and the end of the
--     list. `poll_event` and `next` recurse on that list. StreamParser/Feed and StreamParser/Run
--     compare `poll_event` to `decode_element` on the bytes as a whole, StreamParser/Await
--     compares `next` to it, and StreamParser/Typed is about the ranges of what is parsed.
--     StreamParser/Limit and StreamParser/Bounded are about the soft limit.
--   * cluster heads, chunks and the chunker (src/chunk.rs): Chunk and Chunk/Chunker. The state
--     machine is `in_header`, `in_cluster` and `on_end`, one function per state and the end of
--     the source; `poll_next` puts them around `poll_event`. Chunk/Documents and Chunk/Group run
--     them over a list of elements, and Chunk/Run polls the chunker and the parser below it to the
--     end; Chunk/Limit and Chunk/Fits are about the soft limits. Chunk/Redecode to Chunk/Again
--     decode and chunk the bytes of chunks once more, with Webm/Stream on streams of elements.
--   * the fixers (src/fixers.rs): Fixers, with ChunkTimecodeFixer as `rebase` and `process`, and
--     StartingPointFinder as `admit` and `find`, over the list of what the polls of its stream
--     give. Fixers/Throttle is Throttle, with `tokio`'s clock as the parameter Clock and two
--     readings of it for each poll; Fixers/Pace polls it along a list of readings,
--     and Fixers/Pace/Timing tells when.
--   * the channels (src/channel.rs): Channel, with the queues of the crate `futures` as the
--     parameter Mpsc. `send` is Transmitter::send, `drop_transmitter` its Drop, `new_listener` is
--     Listener::new; a listener is known by its sender, and the mutex by each operation being one
--     step on the channel and the queues. Channel/Sound has the steps as events and runs of them;
--     Channel/Session and Channel/InOrder follow one listener through a run, and Channel/Others
--     is about the listeners of other channels.
--   * the commands (src/commands): Commands has `parse_time`, Commands/Filter the pipeline that
--     `filter` and `send` share, the loop of `filter` and the body of the request of `send`;
--     Commands/Paced adds the optional throttle and the arguments of `filter`, Commands/Send is
--     `send`, and Commands/Relay the streams `get_stream` and `post_stream` of the server.
--     Commands/Dump is `dump`, with what a line tells in place of its text.
--     Commands/Pipeline, Commands/Copy, Commands/Broadcast and Commands/Lines put the components together.
--   * the server (src/commands/relay.rs): Commands/Server, with the map of names as the parameter
--     WeakTable. Its state is this map, the channels behind the pointers, the queues, and the
--     connections that hold a channel. `route` is `routes`: a request tries `head`, `get` and
--     `post_put` in turn, and each of these runs the filter `channel` (`channel_filter`, `locate`)
--     before it looks at the method. `serve` is one event: a request, a chunk from a source, the
--     end of a source, a poll of a client's body, the end of a client. Server/Locate to
--     Server/Served are about the map and the channels, Server/Lookup and Server/Vacant about
--     whom a request meets, Server/Viewer and Server/Relayed follow one client.
--   * the errors (src/error.rs): Error.
--
-- Base has the shared lists, numbers and results. Io is `Write` and `Seek` on a `Cursor`, over a
-- vector or an array, with `?` as a bind that keeps what was written; Io/Append says what it is
-- for an encoder to append. The crates `byteorder`, `bytes`, `futures`, `tokio` and
-- `weak_table` are parameters: ByteOrder, Buffers, Mpsc, Streams, Clock and WeakTable are records
-- of their operations with the documented effect of each, and Reference below each is one that
-- shows that this can hold. HttpClient, in Commands/Send, is the client of `hyper`, without
-- laws. Output, in Commands/Filter, is the standard output.
--
-- Numbers. A sum, difference or shift of machine integers has its wrap-around written out, as in
-- a release build, where it is of 64 bits on values that the input chooses. Lengths of what is in
-- memory do not wrap. `usize` has 64 bits.
--
-- Fuel. `marker_loop` has nine rounds, since the mask is zero after eight. `size_loop` has a
-- round for each of the sizes up to eight. `collect`, `poll_all` and `decode_all` call until the
-- end: an element takes two bytes at least, so more fuel than there are bytes and arrivals is
-- enough. `found_all` takes one answer at least per call. A chunk has two buffers at most, and
-- `iter_chunk` asks three times. `poll_next` of the chunker and
-- `chunk_all` give `none` when their fuel is out, and fuel above the bytes and arrivals, which
-- each event of the parser makes fewer, is enough. `drained` gives `none` when the polls of the
-- throttle run out.
--
-- Not modelled: the resolution of the server's address and its binding (src/commands/relay.rs),
-- the reading of the command line, and the standard input behind `stdin_stream`, which are calls of
-- `clap`, `tokio`, `warp` and `hyper`. The adapters of whole streams leave waits out; the throttle
-- behind them has its own. Logging, the texts of error messages, and capacities of buffers do not
-- change what is computed.
pub mod Base
pub mod Io
pub mod ByteOrder
pub mod Buffers
pub mod Ebml
pub mod Error
pub mod Webm
pub mod Iterator
pub mod StreamParser
pub mod Chunk
pub mod Fixers
pub mod Mpsc
pub mod Channel
pub mod Streams
pub mod Commands
pub mod WeakTable
pub mod Clock
