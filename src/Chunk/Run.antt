-- ===== src/Chunk/Run.antt =====
-- The chunker on top of the stream parser: polled to its end, it groups the elements of all the
-- bytes that its stream brings.
pub mod Engine
unfoldable pub use Engine.{Items, push_item, handle, chunk_all, grouped}
use webmetro.Base.{ℕ, suc, ◌+◌, ◌≤◌, ◌<◌, ◌≡◌, ◌∙◌, Option, none, some, List, map, length, All, ok}
use webmetro.ByteOrder.{ByteOrder}
use webmetro.Buffers.{Buffers}
use webmetro.Io.{new_vec}
use webmetro.Webm.{webm}
use webmetro.StreamParser.{Arrival, parse_ebml}
use webmetro.StreamParser.Feed.{content, IsFeed}
use webmetro.StreamParser.Run.{finished, decode_all}
use webmetro.Chunk.Chunker.{building_header, chunk_webm, with_soft_limit}
use webmetro.Chunk.Fits.{FitsIn}
use webmetro.Chunk.Documents.{Document, IsDocument, elements}
use webmetro.Chunk.Group.{chunks, chunked-elements, chunked-FitsIn}
use webmetro.Chunk.Run.Engine.{chunk_all-HasRoom}

module _ (order : ByteOrder) (buffers : Buffers) where
  -- For every feed (bytes in any pieces and with any waits, and no error), with no limit on the
  -- parser and any limit on the chunker, polling the chunker to its end comes to an end, and its
  -- items are those of the state machine on the elements of the whole byte string, closed as
  -- their decoding ends. Fuel that is more by two than the bytes and arrivals is enough.
  pub chunk_all-grouped :
      (s : List Arrival) (limit : Option ℕ) (fuel : ℕ)
      → IsFeed s
      → length (content s) + length s + 2 ≤ fuel
      → chunk_all order buffers fuel
          (record (chunk_webm (parse_ebml s)) { buffer_size_limit = limit })
        ≡ some (
            grouped order buffers
              (suc (length (content s)))
              limit
              (building_header new_vec)
              (content s))
  unfolding chunk_webm parse_ebml
  chunk_all-grouped s limit fuel feed enough =
      chunk_all-HasRoom order buffers s none limit fuel feed tt enough

  -- For every feed whose bytes decode with no error to the elements of documents, the chunker with
  -- no limit gives the documents' chunks, one for each header and each cluster, and ends; fuel
  -- that is more by two than the bytes and arrivals is enough.
  pub chunk_all-chunks :
      (s : List Arrival) (ds : List Document) (fuel : ℕ)
      → IsFeed s
      → All IsDocument ds
      → decode_all (webm order) (suc (length (content s))) (content s) ≡ (elements ds, finished)
      → length (content s) + length s + 2 ≤ fuel
      → chunk_all order buffers fuel (chunk_webm (parse_ebml s))
        ≡ some (map ok (chunks order buffers ds))
  unfolding chunk_webm parse_ebml
  chunk_all-chunks s ds fuel feed good decoded enough =
      chunk_all-grouped s none fuel feed enough
      ∙ rw (decoded, chunked-elements order buffers ds good)

  -- Soft limits do not strike where they need not: for every feed whose bytes decode with no
  -- error to the elements of documents, with fewer bytes than the limit of the parser,
  -- and with a header and clusters of fewer bytes each than the limit of the chunker, the
  -- chunker gives the documents' chunks, all of them, and ends. Fuel that is more by two than
  -- the bytes and arrivals is enough.
  pub chunk_all-FitsIn :
      (s : List Arrival) (ds : List Document) (parsed limit : ℕ) (fuel : ℕ)
      → IsFeed s
      → All IsDocument ds
      → length (content s) < parsed
      → All (FitsIn (some limit)) ds
      → decode_all (webm order) (suc (length (content s))) (content s) ≡ (elements ds, finished)
      → length (content s) + length s + 2 ≤ fuel
      → chunk_all order buffers fuel (
          with_soft_limit
            (chunk_webm (webmetro.StreamParser.with_soft_limit (parse_ebml s) parsed))
            limit)
        ≡ some (map ok (chunks order buffers ds))
  unfolding chunk_webm with_soft_limit webmetro.StreamParser.with_soft_limit
  chunk_all-FitsIn s ds parsed limit fuel feed good small fits decoded enough =
      chunk_all-HasRoom order buffers s (some parsed) (some limit) fuel feed small enough
      ∙ rw (decoded, chunked-FitsIn order buffers (some limit) ds good fits)
