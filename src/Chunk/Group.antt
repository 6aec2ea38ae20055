-- ===== src/Chunk/Group.antt =====
-- What the chunker makes of a sequence of elements: one chunk for each header and each cluster.
use webmetro.StreamParser.Feed.{HasRoom}
use webmetro.Base.{
  length, err, ℕ, ◌≡◌, ◌∙◌, refl, ap, Option, none, some, List, [], ◌∷◌, ◌++◌, map, map-append, All,
  Result, ok, append-nil, append_assoc,
}
use webmetro.ByteOrder.{ByteOrder}
use webmetro.Buffers.{Buffers}
use webmetro.Error.{WebmetroError}
use webmetro.Io.{new_vec}
use webmetro.Io.Append.{at_end}
use webmetro.Webm.{
  WebmElement, ebml_head, void, segment, seek_head, info, cues, cluster, tracks, timecode,
  simple_block, unknown,
}
use webmetro.Webm.Write.{webm_bytes, IsEncodable, encode_webm_element-at_end}
use webmetro.StreamParser.Run.{Ending, finished, stopped, out_of_fuel}
use webmetro.Chunk.{ClusterHead, update_timecode, new_head, Chunk, headers, cluster_chunk}
use webmetro.Webm.Stream.{written}
use webmetro.Chunk.Documents.{
  IsHeaderElement, IsBodyElement, IsOpening, body_bytes, Document, IsDocument, clusters, elements,
}
use webmetro.Chunk.Chunker.{
  ended, ChunkerState, building_header, building_cluster, map_io, Step, go_on, emit, encode, stored,
  restarted, in_header, observe_block, in_cluster, on_element, on_end,
}
use webmetro.Chunk.Fits.{is_full-HasRoom, HasRoom-append, FitsIn, HasRoom-zero, FitsIn-none}

module _ (order : ByteOrder) (buffers : Buffers) where
  -- The items that `on_element` gives for one element after the other, up to the first error, and
  -- what the ending of the elements adds.
  unfoldable pub push_step :
      Step → (ChunkerState → List (Result WebmetroError Chunk)) → List (Result WebmetroError Chunk)
  push_step (go_on s) again = again s
  push_step (emit (ok chunk) s) again = ok chunk ∷ again s
  push_step (emit (err e) s) again = err e ∷ []

  unfoldable pub push_end : Option (Result WebmetroError Chunk) → List (Result WebmetroError Chunk)
  push_end none = []
  push_end (some item) = item ∷ []

  unfoldable pub close : Ending → ChunkerState → List (Result WebmetroError Chunk)
  close finished s = push_end ((on_end order buffers s).0)
  close (stopped e) s = err e ∷ []
  close out_of_fuel s = []

  unfoldable pub chunked :
      Option ℕ → Ending → ChunkerState → List WebmElement → List (Result WebmetroError Chunk)
  chunked limit end ended es = []
  chunked limit end (building_header buffer) [] = close end (building_header buffer)
  chunked limit end (building_cluster head buffer) [] = close end (building_cluster head buffer)
  chunked limit end (building_header buffer) (e ∷ es) =
      push_step (on_element order buffers limit (building_header buffer) e)
        (λ s. chunked limit end s es)
  chunked limit end (building_cluster head buffer) (e ∷ es) =
      push_step (on_element order buffers limit (building_cluster head buffer) e)
        (λ s. chunked limit end s es)

  -- The head of a cluster after the elements of its body.
  unfoldable pub observed : ClusterHead → List WebmElement → ClusterHead
  observed head [] = head
  observed head (timecode t ∷ es) = observed (update_timecode order buffers head t) es
  observed head (simple_block b ∷ es) = observed (observe_block order buffers head b) es
  observed head (_ ∷ es) = observed head es

  abbrev pub cluster_of : List WebmElement → Chunk
  cluster_of body = cluster_chunk (observed (new_head order buffers 0) body) (body_bytes body)

  abbrev pub chunks : List Document → List Chunk
  chunks [] = []
  chunks (d ∷ ds) =
      headers (webm_bytes d.opening ++ written d.header)
      ∷ cluster_of d.first
      ∷ (map cluster_of d.others ++ chunks ds)

  module _ (limit : Option ℕ) where
    encode-at_end :
        (e : WebmElement) (bs : List ℕ)
        → IsEncodable e
        → HasRoom limit (length bs)
        → encode order buffers e (at_end bs) limit ≡ (ok tt, at_end (bs ++ webm_bytes e))
    unfolding encode map_io
    encode-at_end e bs h room =
        rw (is_full-HasRoom limit bs room, encode_webm_element-at_end order e bs h)

    in_header-at_end :
        (e : WebmElement) (bs : List ℕ)
        → IsHeaderElement e
        → HasRoom limit (length bs)
        → in_header order buffers limit (at_end bs) e
          ≡ go_on (building_header (at_end (bs ++ webm_bytes e)))
    unfolding in_header stored
    in_header-at_end ebml_head bs h room = rw (encode-at_end ebml_head bs h room)
    in_header-at_end segment bs h room = rw (encode-at_end segment bs h room)
    in_header-at_end seek_head bs h room = rw (encode-at_end seek_head bs h room)
    in_header-at_end cues bs h room = rw (encode-at_end cues bs h room)
    in_header-at_end (tracks x) bs h room = rw (encode-at_end (tracks x) bs h room)
    in_header-at_end (timecode t) bs h room = rw (encode-at_end (timecode t) bs h room)
    in_header-at_end (simple_block b) bs h room = rw (encode-at_end (simple_block b) bs h room)
    in_header-at_end cluster bs h room = elim h [ ]
    in_header-at_end void bs h room = rw append-nil
    in_header-at_end info bs h room = rw append-nil
    in_header-at_end (unknown x) bs h room = rw append-nil

    -- Elements of a header.
    chunked-header :
        (hs es : List WebmElement) (bs : List ℕ)
        → All IsHeaderElement hs
        → HasRoom limit (length (bs ++ written hs))
        → chunked limit finished (building_header (at_end bs)) (hs ++ es)
          ≡ chunked limit finished (building_header (at_end (bs ++ written hs))) es
    unfolding chunked push_step on_element
    chunked-header [] es bs h room = rw append-nil
    chunked-header (e ∷ hs) es bs (he, h) room =
        let whole = append_assoc bs (webm_bytes e) (written hs) in
        rw (
          in_header-at_end e bs he (HasRoom-append limit bs (webm_bytes e ++ written hs) room),
          chunked-header hs es (bs ++ webm_bytes e) h (rw whole room),
          whole,
        )

    -- One element of a body, with `k` for the rest.
    chunked-body :
        (body es : List WebmElement) (head : ClusterHead) (bs : List ℕ)
        → All IsBodyElement body
        → HasRoom limit (length (bs ++ body_bytes body))
        → chunked limit finished (building_cluster head (at_end bs)) (body ++ es)
          ≡ chunked limit finished
              (building_cluster (observed head body) (at_end (bs ++ body_bytes body)))
              es
    unfolding chunked push_step on_element in_cluster stored observed
    chunked-body [] es head bs h room = rw append-nil
    chunked-body (seek_head ∷ body) es head bs (he, h) room = rw (
      encode-at_end seek_head bs he (HasRoom-append limit bs (body_bytes body) room),
      append-nil bs,
      chunked-body body es head bs h room,
    )
    chunked-body (cues ∷ body) es head bs (he, h) room = rw (
      encode-at_end cues bs he (HasRoom-append limit bs (body_bytes body) room),
      append-nil bs,
      chunked-body body es head bs h room,
    )
    chunked-body (tracks x ∷ body) es head bs (he, h) room =
        let whole = append_assoc bs (webm_bytes (tracks x)) (body_bytes body) in
        rw (
          encode-at_end (tracks x) bs he
              (HasRoom-append limit bs (webm_bytes (tracks x) ++ body_bytes body) room),
          chunked-body body es head (bs ++ webm_bytes (tracks x)) h (rw whole room),
          whole,
        )
    chunked-body (timecode t ∷ body) es head bs (he, h) room =
        chunked-body body es (update_timecode order buffers head t) bs h room
    chunked-body (simple_block b ∷ body) es head bs (he, h) room =
        let whole = append_assoc bs (webm_bytes (simple_block b)) (body_bytes body) in
        rw (
          encode-at_end (simple_block b) bs he
              (HasRoom-append limit bs (webm_bytes (simple_block b) ++ body_bytes body) room),
          chunked-body body es (observe_block order buffers head b)
              (bs ++ webm_bytes (simple_block b)) h (rw whole room),
          whole,
        )
    chunked-body (void ∷ body) es head bs (he, h) room = chunked-body body es head bs h room
    chunked-body (info ∷ body) es head bs (he, h) room = chunked-body body es head bs h room
    chunked-body (unknown x ∷ body) es head bs (he, h) room = chunked-body body es head bs h room
    chunked-body (cluster ∷ body) es head bs (he, h) room = elim he [ ]
    chunked-body (ebml_head ∷ body) es head bs (he, h) room = elim he [ ]
    chunked-body (segment ∷ body) es head bs (he, h) room = elim he [ ]

    -- The clusters of a document behind its header, up to what comes next.
    chunked-clusters :
        (others : List (List WebmElement)) (rest : List WebmElement) (first : List WebmElement)
        → All IsBodyElement first
        → All (All IsBodyElement) others
        → HasRoom limit (length (body_bytes first))
        → All (λ body. HasRoom limit (length (body_bytes body))) others
        → (rest_items : List (Result WebmetroError Chunk))
        → ((head : ClusterHead) (bs : List ℕ)
            → chunked limit finished (building_cluster head (at_end bs)) rest
              ≡ ok (cluster_chunk head bs) ∷ rest_items)
        → chunked limit finished
            (building_cluster (new_head order buffers 0) new_vec)
            (first ++ clusters others rest)
          ≡ ok (cluster_of first) ∷ (map ok (map cluster_of others) ++ rest_items)
    unfolding chunked push_step on_element in_cluster
    chunked-clusters [] rest first h hs room rooms items after =
        chunked-body first rest (new_head order buffers 0) [] h room
        ∙ after (observed (new_head order buffers 0) first) (body_bytes first)
    chunked-clusters (body ∷ more) rest first h (hb, hs) room (rb, rooms) items after =
        chunked-body first (clusters (body ∷ more) rest) (new_head order buffers 0) [] h room
        ∙ ap (◌∷◌ (ok (cluster_of first)))
            (chunked-clusters more rest body hb hs rb rooms items after)

    -- Opening elements have a form that `encode` can write.
    chunked_restart :
        (e : WebmElement) (es : List WebmElement) (head : ClusterHead) (bs : List ℕ)
        → IsOpening e
        → HasRoom limit 0
        → chunked limit finished (building_cluster head (at_end bs)) (e ∷ es)
          ≡ ok (cluster_chunk head bs) ∷ chunked limit finished (building_header new_vec) (e ∷ es)
    unfolding chunked push_step on_element in_cluster in_header restarted stored
    chunked_restart ebml_head es head bs h room = rw (encode-at_end ebml_head [] tt room)
    chunked_restart segment es head bs h room = rw (encode-at_end segment [] tt room)
    chunked_restart void es head bs h room = elim h [ ]
    chunked_restart info es head bs h room = elim h [ ]
    chunked_restart seek_head es head bs h room = elim h [ ]
    chunked_restart cues es head bs h room = elim h [ ]
    chunked_restart cluster es head bs h room = elim h [ ]
    chunked_restart (tracks x) es head bs h room = elim h [ ]
    chunked_restart (timecode x) es head bs h room = elim h [ ]
    chunked_restart (simple_block x) es head bs h room = elim h [ ]
    chunked_restart (unknown x) es head bs h room = elim h [ ]

    chunked_next :
        (ds : List Document) (head : ClusterHead) (bs : List ℕ)
        → All IsDocument ds
        → HasRoom limit 0
        → chunked limit finished (building_cluster head (at_end bs)) (elements ds)
          ≡ ok (cluster_chunk head bs)
            ∷ chunked limit finished (building_header new_vec) (elements ds)
    unfolding chunked close push_end on_end
    chunked_next [] head bs h room = refl
    chunked_next (d ∷ ds) head bs (hd, h) room =
        chunked_restart d.opening
          (d.header ++ (cluster ∷ (d.first ++ clusters d.others (elements ds)))) head bs hd.opens
          room

    IsOpening-IsHeaderElement : (e : WebmElement) → IsOpening e → IsHeaderElement e
    IsOpening-IsHeaderElement ebml_head h = tt
    IsOpening-IsHeaderElement segment h = tt
    IsOpening-IsHeaderElement void h = tt
    IsOpening-IsHeaderElement info h = tt
    IsOpening-IsHeaderElement seek_head h = tt
    IsOpening-IsHeaderElement cues h = tt
    IsOpening-IsHeaderElement cluster h = elim h [ ]
    IsOpening-IsHeaderElement (tracks x) h = elim h [ ]
    IsOpening-IsHeaderElement (timecode x) h = tt
    IsOpening-IsHeaderElement (simple_block x) h = elim h [ ]
    IsOpening-IsHeaderElement (unknown x) h = tt

    chunked-header_cluster :
        (es : List WebmElement) (bs : List ℕ)
        → chunked limit finished (building_header (at_end bs)) (cluster ∷ es)
          ≡ ok (headers bs)
            ∷ chunked limit finished (building_cluster (new_head order buffers 0) new_vec) es
    unfolding chunked push_step on_element in_header
    chunked-header_cluster es bs = refl

    -- A soft limit does not strike where documents stay below it: their chunks are those without
    -- a limit.
    pub chunked-FitsIn :
        (ds : List Document)
        → All IsDocument ds
        → All (FitsIn limit) ds
        → chunked limit finished (building_header new_vec) (elements ds) ≡ map ok (chunks ds)
    unfolding chunked close push_end on_end
    chunked-FitsIn [] h room = refl
    chunked-FitsIn (d ∷ ds) (hd, h) (fd, f) =
        let rest : List WebmElement = d.first ++ clusters d.others (elements ds) in
        let again = chunked-FitsIn ds h f in
        let start = HasRoom-zero limit (length (body_bytes d.first)) fd.first_fits in
        chunked-header (d.opening ∷ d.header) (cluster ∷ rest) []
          (IsOpening-IsHeaderElement d.opening hd.opens, hd.header_ok) fd.header_fits
        ∙ chunked-header_cluster rest (webm_bytes d.opening ++ written d.header)
        ∙ ap (◌∷◌ (ok (headers (webm_bytes d.opening ++ written d.header)))) (
            chunked-clusters d.others (elements ds) d.first hd.first_ok hd.others_ok fd.first_fits
              fd.others_fit (chunked limit finished (building_header new_vec) (elements ds))
              (λ head bs. chunked_next ds head bs h start)
            ∙ rw (
              again,
              map-append {A = Chunk} {B = Result WebmetroError Chunk} (λ c. ok c)
                  (map cluster_of d.others) (chunks ds),
            ))

  -- A sequence of documents, each a header from an `EBML` or `Segment` element on and one or more
  -- clusters, with elements that can be written or are left out, gives with no limit exactly
  -- one chunk for each header and for each cluster, in order: the header's bytes are the encodings of
  -- its elements, a cluster's body those of its elements but timecodes, and its head
  -- what the timecodes and blocks of the cluster make of a new one.
  pub chunked-elements :
      (ds : List Document)
      → All IsDocument ds
      → chunked none finished (building_header new_vec) (elements ds) ≡ map ok (chunks ds)
  chunked-elements ds h = chunked-FitsIn none ds h (FitsIn-none ds)
