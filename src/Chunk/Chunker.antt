-- ===== src/Chunk/Chunker.antt =====
-- src/chunk.rs, lines 106 to 259: the state machine that groups elements into chunks.
use webmetro.Base.{
  ℕ, zero, suc, Bool, true, false, ◌==◌, not, bit_and, Option, none, some, length, leb,
  if◌then◌else◌, Result, ok, err, Poll, ready, pending,
}
use webmetro.ByteOrder.{ByteOrder}
use webmetro.Buffers.{Buffers}
use webmetro.Error.{WebmetroError, resources_exceeded, io_error}
use webmetro.Io.{Cursor, IoError, new_vec}
use webmetro.Webm.{
  SimpleBlock, WebmElement, ebml_head, void, segment, info, cluster, timecode, simple_block,
  unknown, webm, encode_webm_element,
}
use webmetro.StreamParser.{EbmlStreamingParser, poll_event}
use webmetro.Chunk.{
  ClusterHead, observe_simpleblock_timecode, update_timecode, new_head, Chunk, headers,
  cluster_chunk,
}

pub data ChunkerState : Type 0 where
  building_header : Cursor → ChunkerState
  building_cluster : ClusterHead → Cursor → ChunkerState
  ended : ChunkerState

pub record WebmChunker : Type 0 where
  pub source : EbmlStreamingParser
  pub buffer_size_limit : Option ℕ
  pub state : ChunkerState

-- `chunk_webm` and `with_soft_limit`.
unfoldable pub chunk_webm : EbmlStreamingParser → WebmChunker
chunk_webm source = record {
  source = source;
  buffer_size_limit = none;
  state = building_header new_vec;
}

unfoldable pub with_soft_limit : WebmChunker → ℕ → WebmChunker
with_soft_limit c limit = record c { buffer_size_limit = some limit }

unfoldable pub is_full : Option ℕ → Cursor → Bool
is_full none buffer = false
is_full (some limit) buffer = leb limit (length buffer.bytes)

unfoldable pub map_io :
    Result IoError (Unit {0}) × Cursor → Result WebmetroError (Unit {0}) × Cursor
map_io (ok x, c) = (ok x, c)
map_io (err e, c) = (err (io_error e), c)

-- What handling one element does: the loop goes on, or `poll_next` returns with an item.
pub data Step : Type 0 where
  go_on : ChunkerState → Step
  emit : Result WebmetroError Chunk → ChunkerState → Step

-- What `poll_next` returns.
abbrev pub Item : Type 0
Item = Poll (Option (Result WebmetroError Chunk))

module _ (order : ByteOrder) (buffers : Buffers) where
  unfoldable pub encode : WebmElement → Cursor → Option ℕ → Result WebmetroError (Unit {0}) × Cursor
  encode element buffer limit =
      if is_full limit buffer
      then (err resources_exceeded, buffer)
      else map_io (encode_webm_element order element buffer)

  -- An element goes to the buffer of the state `into`; an error ends the stream.
  unfoldable pub stored : (Cursor → ChunkerState) → Result WebmetroError (Unit {0}) × Cursor → Step
  stored into (ok x, buffer) = go_on (into buffer)
  stored into (err e, buffer) = emit (err e) ended

  -- A new initialization segment begins: its first element is written before the cluster is sent.
  unfoldable pub restarted : Chunk → Result WebmetroError (Unit {0}) × Cursor → Step
  restarted done (ok x, buffer) = emit (ok done) (building_header buffer)
  restarted done (err e, buffer) = emit (err e) ended

  unfoldable pub in_header : Option ℕ → Cursor → WebmElement → Step
  in_header limit buffer cluster =
      emit (ok (headers buffer.bytes)) (building_cluster (new_head order buffers 0) new_vec)
  in_header limit buffer info = go_on (building_header buffer)
  in_header limit buffer void = go_on (building_header buffer)
  in_header limit buffer (unknown _) = go_on (building_header buffer)
  in_header limit buffer element = stored building_header (encode element buffer limit)

  unfoldable pub observe_block : ClusterHead → SimpleBlock → ClusterHead
  observe_block head block =
      let head' =
        if not (bit_and block.flags 0b10000000 == 0)
        then record head { keyframe = true }
        else head in
      observe_simpleblock_timecode head' block.timecode

  unfoldable pub in_cluster : Option ℕ → ClusterHead → Cursor → WebmElement → Step
  in_cluster limit head buffer ebml_head =
      restarted (cluster_chunk head buffer.bytes) (encode ebml_head new_vec limit)
  in_cluster limit head buffer segment =
      restarted (cluster_chunk head buffer.bytes) (encode segment new_vec limit)
  in_cluster limit head buffer cluster =
      emit (ok (cluster_chunk head buffer.bytes))
        (building_cluster (new_head order buffers 0) new_vec)
  in_cluster limit head buffer (timecode t) =
      go_on (building_cluster (update_timecode order buffers head t) buffer)
  in_cluster limit head buffer (simple_block block) =
      stored (building_cluster (observe_block head block))
        (encode (simple_block block) buffer limit)
  in_cluster limit head buffer info = go_on (building_cluster head buffer)
  in_cluster limit head buffer void = go_on (building_cluster head buffer)
  in_cluster limit head buffer (unknown _) = go_on (building_cluster head buffer)
  in_cluster limit head buffer element =
      stored (building_cluster head) (encode element buffer limit)

  unfoldable pub on_element : Option ℕ → ChunkerState → WebmElement → Step
  on_element limit (building_header buffer) element = in_header limit buffer element
  on_element limit (building_cluster head buffer) element = in_cluster limit head buffer element
  on_element limit ended element = go_on ended

  -- The end of the source: a cluster that is being built is flushed, a header is dropped.
  unfoldable pub on_end : ChunkerState → Option (Result WebmetroError Chunk) × ChunkerState
  on_end (building_header buffer) = (none, building_header buffer)
  on_end (building_cluster head buffer) = (some (ok (cluster_chunk head buffer.bytes)), ended)
  on_end ended = (none, ended)

  -- One round of the loop, with `again` for the rest of it; `again` gets the state to go on with.
  unfoldable pub after_step :
      WebmChunker → Step → (WebmChunker → Option (Item × WebmChunker)) → Option (Item × WebmChunker)
  after_step c (go_on state) again = again (record c { state = state })
  after_step c (emit item state) again = some (ready (some item), record c { state = state })

  unfoldable pub after_event :
      WebmChunker
      → Poll (Option (Result WebmetroError WebmElement))
      → (WebmChunker → Option (Item × WebmChunker))
      → Option (Item × WebmChunker)
  after_event c pending again = some (pending, c)
  after_event c (ready (some (err passthru))) again = some (ready (some (err passthru)), c)
  after_event c (ready (some (ok element))) again =
      after_step c (on_element c.buffer_size_limit c.state element) again
  after_event c (ready none) again =
      let (item, state) = on_end c.state in some (ready item, record c { state = state })

  unfoldable pub chunker_round :
      ChunkerState
      → WebmChunker
      → (WebmChunker → Option (Item × WebmChunker))
      → Option (Item × WebmChunker)
  chunker_round ended c again = some (ready none, c)
  chunker_round _ c again =
      let (event, source) = poll_event buffers (webm order) c.source in
      after_event (record c { source = source }) event again

  -- `poll_next`, with fuel for its loop; `none` means that the fuel has run out.
  unfoldable pub poll_next : ℕ → WebmChunker → Option (Item × WebmChunker)
  poll_next zero c = none
  poll_next (suc fuel) c = chunker_round c.state c (λ c'. poll_next fuel c')
