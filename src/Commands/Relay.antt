-- ===== src/Commands/Relay.antt =====
-- src/commands/relay.rs: what a listener's client is sent, and what a source's stream does to its
-- channel. The routes to these two streams are in Commands/Server.
use mathlib.Core.Option
use webmetro.Base.{ℕ, ◌*◌, Option, List, [], ◌∷◌, map, ok, ready, pending}
use webmetro.ByteOrder.{ByteOrder}
use webmetro.Buffers.{Buffers}
use webmetro.Mpsc.{Mpsc}
use webmetro.StreamParser.{Arrival, parse_ebml}
use webmetro.Chunk.{Chunk}
use webmetro.Chunk.Chunker.{WebmChunker, chunk_webm}
use webmetro.Chunk.Run.{chunk_all}
use webmetro.Channel.{Channel, send}
use webmetro.Fixers.{new_fixer, process, find_starting_point}
use webmetro.Fixers.StartingPoint.{Answer, found_all}
use webmetro.Streams.{Stream, Streams}
use webmetro.Commands.Filter.{flat_buffers}

-- The answers with the waits left out.
unfoldable pub settled : List Answer → Stream Chunk
settled [] = []
settled (pending ∷ answers) = settled answers
settled (ready item ∷ answers) = item ∷ settled answers

-- `BUFFER_LIMIT`
abbrev pub buffer_limit : ℕ
buffer_limit = 2 * 1024 * 1024

module _ (streams : Streams) (order : ByteOrder) (buffers : Buffers) where
  open streams use {map_ok, state_after}

  -- `get_stream`, on the chunks that its listener gives; the fuel is for the starting-point finder.
  unfoldable pub get_stream : ℕ → List Chunk → Stream (List ℕ)
  get_stream fuel listened =
      let fixed = map_ok (process order buffers) new_fixer (map ok listened) in
      flat_buffers streams order buffers
        (settled (found_all fuel (find_starting_point (map ready fixed))))

  -- The chain of `post_stream` up to its last adapter.
  unfoldable pub posted : List Arrival → WebmChunker
  posted stream =
      webmetro.Chunk.Chunker.with_soft_limit
        (chunk_webm (webmetro.StreamParser.with_soft_limit (parse_ebml stream) buffer_limit))
        buffer_limit

  module _ (mpsc : Mpsc) where
    open mpsc use {Queues}

    -- The closure of `post_stream`: it sends the chunk, and answers with no bytes.
    unfoldable pub relay_chunk : Channel mpsc × Queues → Chunk → List ℕ × (Channel mpsc × Queues)
    relay_chunk w chunk = ([], send mpsc chunk w)

    -- `post_stream`: the answer's body, which ends at the first error, and the channel behind it;
    -- `none` when the fuel of the chunker is out.
    unfoldable pub post_stream :
        ℕ
        → List Arrival
        → Channel mpsc × Queues
        → Option (Stream (List ℕ) × (Channel mpsc × Queues))
    post_stream fuel stream w =
        Option.map (λ items. (map_ok relay_chunk w items, state_after relay_chunk w items))
          (chunk_all order buffers fuel (posted stream))
