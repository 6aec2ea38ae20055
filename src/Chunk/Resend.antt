-- ===== src/Chunk/Resend.antt =====
-- The bytes that are sent for documents, decoded and chunked again.
use webmetro.Base.{
  ◌<◌, suc, ◌≡◌, refl, arith, true, List, [], ◌∷◌, ◌++◌, map, length, All, All-append, append_assoc,
}
use webmetro.ByteOrder.{ByteOrder}
use webmetro.Buffers.{Buffers}
use webmetro.Webm.{
  WebmElement, ebml_head, void, segment, seek_head, info, cues, cluster, tracks, timecode,
  simple_block, unknown, webm,
}
use webmetro.Webm.Write.{webm_bytes}
use webmetro.Webm.RoundTrip.{IsStorable}
use webmetro.Webm.Stream.{
  written, written-append, decode_all-written, remainder-written, length-written,
}
use webmetro.StreamParser.Run.{decode_all, remainder, finished}
use webmetro.Chunk.{Chunk, new_head}
use webmetro.Chunk.Documents.{Document, clusters, elements}
use webmetro.Chunk.Group.{cluster_of, chunks}
use webmetro.Chunk.Redecode.{
  sent_bytes, is_written, in_body, kept, IsKept, written-kept, kept-IsStorable,
}
use webmetro.Chunk.Normal.{
  normal, normal_body, IsReadable, cluster_bytes, sent_bytes-append, sent_bytes-clusters,
  observed-IsHead, new_head-IsHead,
}

module _ (order : ByteOrder) (buffers : Buffers) where
  pub sent_bytes-chunks :
      (ds : List Document)
      → All (IsReadable order buffers) ds
      → sent_bytes (chunks order buffers ds) ≡ written (elements (map (normal order buffers) ds))
  unfolding sent_bytes
  sent_bytes-chunks [] h = refl
  sent_bytes-chunks (d ∷ ds) (hd, h) =
      let rest = elements (map (normal order buffers) ds) in
      let more = clusters (map (normal_body order buffers) d.others) rest in
      let body = cluster ∷ normal_body order buffers d.first in
      rw (
        cluster_bytes order buffers d.first hd.first_kept,
        sent_bytes-append order buffers (map (cluster_of order buffers) d.others)
            (chunks order buffers ds),
        sent_bytes-chunks ds h,
        sent_bytes-clusters order buffers d.others rest hd.others_kept,
        written-append (kept is_written d.header) (body ++ more),
        written-kept d.header,
        ← written-append body more,
        append_assoc (webm_bytes d.opening) (written d.header) (written (body ++ more)),
      )

  is_written-IsStorable : (e : WebmElement) → is_written e ≡ true → IsKept e → IsStorable e
  is_written-IsStorable e w h = rw w at h

  in_body-IsStorable : (e : WebmElement) → in_body e ≡ true → IsKept e → IsStorable e
  in_body-IsStorable (timecode t) w h = cc
  in_body-IsStorable void w h = cc
  in_body-IsStorable info w h = cc
  in_body-IsStorable seek_head w h = cc
  in_body-IsStorable cues w h = cc
  in_body-IsStorable (unknown x) w h = cc
  in_body-IsStorable ebml_head w h = h
  in_body-IsStorable segment w h = h
  in_body-IsStorable cluster w h = h
  in_body-IsStorable (tracks x) w h = h
  in_body-IsStorable (simple_block x) w h = h

  normal_body-IsStorable :
      (body : List WebmElement)
      → All IsKept body
      → All IsStorable (cluster ∷ normal_body order buffers body)
  normal_body-IsStorable body k =
      let head =
        observed-IsHead order buffers (new_head order buffers 0) body k
          (new_head-IsHead order buffers) in
      (tt, (head.start_fits, kept-IsStorable in_body body in_body-IsStorable k))

  clusters-IsStorable :
      (others : List (List WebmElement)) (rest : List WebmElement)
      → All (All IsKept) others
      → All IsStorable rest
      → All IsStorable (clusters (map (normal_body order buffers) others) rest)
  clusters-IsStorable [] rest k h = h
  clusters-IsStorable (body ∷ more) rest (kb, k) h =
      All-append IsStorable (cluster ∷ normal_body order buffers body) _
        (normal_body-IsStorable body kb) (clusters-IsStorable more rest k h)

  pub elements-IsStorable :
      (ds : List Document)
      → All (IsReadable order buffers) ds
      → All IsStorable (elements (map (normal order buffers) ds))
  elements-IsStorable [] h = tt
  elements-IsStorable (d ∷ ds) (hd, h) =
      let rest = elements-IsStorable ds h in
      let more = clusters-IsStorable d.others _ hd.others_kept rest in
      let body = normal_body-IsStorable d.first hd.first_kept in
      (
        hd.opening_kept,
        All-append IsStorable (kept is_written d.header) _
            (kept-IsStorable is_written d.header is_written-IsStorable hd.header_kept)
            (All-append IsStorable (cluster ∷ normal_body order buffers d.first) _ body more),
      )

  pub decode_all-sent_bytes :
      (ds : List Document)
      → All (IsReadable order buffers) ds
      → let bytes = sent_bytes (chunks order buffers ds) in
        (decode_all (webm order) (suc (length bytes)) bytes
          ≡ (elements (map (normal order buffers) ds), finished))
        × (remainder (webm order) (suc (length bytes)) bytes ≡ [])
  decode_all-sent_bytes ds h =
      let es = elements (map (normal order buffers) ds) in
      let good = elements-IsStorable ds h in
      let fuel = suc (length (written es)) in
      let enough : length es < fuel = omega (arith, length-written order es good) in
      rw (sent_bytes-chunks ds h)
        (decode_all-written order es fuel good enough, remainder-written order es fuel good enough)
