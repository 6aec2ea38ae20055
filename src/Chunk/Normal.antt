-- ===== src/Chunk/Normal.antt =====
-- What a listener is sent for a sequence of documents: documents again, with one timecode at the front of
-- each cluster and without the elements that are left out.
use webmetro.Base.{
  ◌%◌, ltb, bit_and, ◌==◌, ℕ, ◌+◌, ◌^◌, ◌<◌, ◌≡◌, ◌∙◌, refl, sym, ap, arith, true, List, [], ◌∷◌,
  ◌++◌, map, All, append_assoc, Bool-cases, inl, inr,
}
use webmetro.ByteOrder.{ByteOrder}
use webmetro.Buffers.{Buffers}
use webmetro.Webm.{
  SimpleBlock, WebmElement, ebml_head, void, segment, seek_head, info, cues, cluster, tracks,
  timecode, simple_block, unknown,
}
use webmetro.Webm.Write.{webm_bytes}
use webmetro.Webm.RoundTrip.{IsStorable}
use webmetro.Webm.Stream.{written, written-append}
use webmetro.Chunk.{
  ClusterHead, update_timecode, sign_extend, observe_simpleblock_timecode, new_head, Chunk,
}
use webmetro.Chunk.Head.{head_bytes, update_timecode-head_bytes}
use webmetro.Chunk.Chunker.{observe_block}
use webmetro.Chunk.Documents.{body_bytes, Document, clusters}
use webmetro.Chunk.Group.{observed, cluster_of}
use webmetro.Chunk.Redecode.{
  chunk_bytes, sent_bytes, is_written, in_body, kept, IsKept, written-in_body,
}

-- A head that carries the bytes of its start, which is a `u64`.
pub record IsHead (head : ClusterHead) : Type 0 where
  pub bytes_fit : head.bytes ≡ head_bytes head.start
  pub start_fits : head.start < 2 ^ 64

module _ (order : ByteOrder) (buffers : Buffers) where
  observe-IsHead :
      (head : ClusterHead) (w : ℕ) → IsHead head → IsHead (observe_simpleblock_timecode head w)
  unfolding observe_simpleblock_timecode
  observe-IsHead head w h =
      elim (Bool-cases (ltb head.start ((head.start + sign_extend w) % 2 ^ 64))) [
        | inl e ↦ rw e (record { bytes_fit = h.bytes_fit; start_fits = h.start_fits })
        | inr e ↦ rw e h
      ]

  observe_block-IsHead :
      (head : ClusterHead) (b : SimpleBlock)
      → IsHead head
      → IsHead (observe_block order buffers head b)
  unfolding observe_block
  observe_block-IsHead head b h = elim (Bool-cases (bit_and b.flags 0b10000000 == 0)) [
    | inl e ↦ rw e (observe-IsHead head b.timecode h)
    | inr e ↦
        let marked : IsHead (record head { keyframe = true }) = record {
          bytes_fit = h.bytes_fit;
          start_fits = h.start_fits;
        } in
        rw e (observe-IsHead (record head { keyframe = true }) b.timecode marked)
  ]

  update_timecode-IsHead :
      (head : ClusterHead) (t : ℕ) → t < 2 ^ 64 → IsHead (update_timecode order buffers head t)
  update_timecode-IsHead head t small =
      let (start, bytes) = update_timecode-head_bytes order buffers head t in
      record { bytes_fit = bytes ∙ ap head_bytes (sym start); start_fits = rw start small }

  pub new_head-IsHead : IsHead (new_head order buffers 0)
  unfolding new_head
  new_head-IsHead = update_timecode-IsHead _ 0 (omega arith)

  pub observed-IsHead :
      (head : ClusterHead) (es : List WebmElement)
      → All IsKept es
      → IsHead head
      → IsHead (observed order buffers head es)
  unfolding observed
  observed-IsHead head [] k h = h
  observed-IsHead head (timecode t ∷ es) (small, k) h =
      observed-IsHead (update_timecode order buffers head t) es k
        (update_timecode-IsHead head t small)
  observed-IsHead head (simple_block b ∷ es) (kb, k) h =
      observed-IsHead (observe_block order buffers head b) es k (observe_block-IsHead head b h)
  observed-IsHead head (void ∷ es) (ke, k) h = observed-IsHead head es k h
  observed-IsHead head (info ∷ es) (ke, k) h = observed-IsHead head es k h
  observed-IsHead head (seek_head ∷ es) (ke, k) h = observed-IsHead head es k h
  observed-IsHead head (cues ∷ es) (ke, k) h = observed-IsHead head es k h
  observed-IsHead head (unknown x ∷ es) (ke, k) h = observed-IsHead head es k h
  observed-IsHead head (ebml_head ∷ es) (ke, k) h = observed-IsHead head es k h
  observed-IsHead head (segment ∷ es) (ke, k) h = observed-IsHead head es k h
  observed-IsHead head (cluster ∷ es) (ke, k) h = observed-IsHead head es k h
  observed-IsHead head (tracks x ∷ es) (ke, k) h = observed-IsHead head es k h

  abbrev pub head_of : List WebmElement → ClusterHead
  head_of body = observed order buffers (new_head order buffers 0) body

  abbrev pub normal_body : List WebmElement → List WebmElement
  normal_body body = timecode (head_of body).start ∷ kept in_body body

  abbrev pub normal : Document → Document
  normal d = record {
    opening = d.opening;
    header = kept is_written d.header;
    first = normal_body d.first;
    others = map normal_body d.others;
  }

  -- A document all of whose elements can be read back, or are left out.
  pub record IsReadable (d : Document) : Type 0 where
    pub opening_kept : IsStorable d.opening
    pub header_kept : All IsKept d.header
    pub first_kept : All IsKept d.first
    pub others_kept : All (All IsKept) d.others

  pub cluster_bytes :
      (body : List WebmElement)
      → All IsKept body
      → chunk_bytes (cluster_of order buffers body) ≡ written (cluster ∷ normal_body body)
  cluster_bytes body k =
      let h = observed-IsHead (new_head order buffers 0) body k new_head-IsHead in
      rw (h.bytes_fit, written-in_body body)
        (append_assoc (webm_bytes cluster) (webm_bytes (timecode (head_of body).start))
          (body_bytes body))

  pub sent_bytes-append :
      (cs ds : List Chunk) → sent_bytes (cs ++ ds) ≡ sent_bytes cs ++ sent_bytes ds
  unfolding sent_bytes
  sent_bytes-append [] ds = refl
  sent_bytes-append (c ∷ cs) ds =
      rw (sent_bytes-append cs ds, append_assoc (chunk_bytes c) (sent_bytes cs) (sent_bytes ds))

  -- The bytes sent for the clusters of one document, with what comes behind them.
  pub sent_bytes-clusters :
      (others : List (List WebmElement)) (rest : List WebmElement)
      → All (All IsKept) others
      → sent_bytes (map (cluster_of order buffers) others) ++ written rest
        ≡ written (clusters (map normal_body others) rest)
  unfolding sent_bytes
  sent_bytes-clusters [] rest k = refl
  sent_bytes-clusters (body ∷ more) rest (kb, k) =
      let tail = clusters (map normal_body more) rest in
      rw (
        cluster_bytes body kb,
        append_assoc (written (cluster ∷ normal_body body))
            (sent_bytes (map (cluster_of order buffers) more)) (written rest),
        sent_bytes-clusters more rest k,
        ← written-append (cluster ∷ normal_body body) tail,
      )
