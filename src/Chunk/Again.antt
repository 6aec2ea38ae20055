-- ===== src/Chunk/Again.antt =====
-- Chunking what was sent for chunks: the same chunks again.
use webmetro.Base.{
  ℕ, ◌+◌, ◌≤◌, ◌≡◌, ◌∙◌, refl, ap, Bool, some, List, [], ◌∷◌, map, length, All, Bool-cases, inl,
  inr, ok,
}
use webmetro.ByteOrder.{ByteOrder}
use webmetro.Buffers.{Buffers}
use webmetro.Webm.{
  WebmElement, ebml_head, void, segment, seek_head, info, cues, cluster, tracks, timecode,
  simple_block, unknown,
}
use webmetro.StreamParser.{Arrival, parse_ebml}
use webmetro.StreamParser.Feed.{content, IsFeed}
use webmetro.Chunk.{ClusterHead, update_timecode, new_head}
use webmetro.Chunk.Head.{update_timecode-head_bytes}
use webmetro.Chunk.Chunker.{observe_block, chunk_webm}
use webmetro.Chunk.Documents.{body_bytes, Document, IsDocument, IsHeaderElement, IsBodyElement}
use webmetro.Chunk.Group.{observed, cluster_of, chunks}
use webmetro.Chunk.Run.{chunk_all, chunk_all-chunks}
use webmetro.Chunk.Redecode.{
  sent_bytes, is_written, in_body, kept, written-kept, body_bytes-in_body,
}
use webmetro.Chunk.Normal.{normal, normal_body, IsReadable}
use webmetro.Chunk.Stripped.{start-observe_block}
use webmetro.Chunk.Resend.{decode_all-sent_bytes}

abbrev pub IsUntimed : WebmElement → Type 0
IsUntimed (timecode t) = ⊥
IsUntimed _ = Unit

-- A cluster's body with its one timecode at the front.
abbrev pub IsTimed : List WebmElement → Type 0
IsTimed (timecode t ∷ es) = All IsUntimed es
IsTimed _ = ⊥

pub record IsTimedDocument (d : Document) : Type 0 where
  pub first_timed : IsTimed d.first
  pub others_timed : All IsTimed d.others

All-kept :
    (P : WebmElement → Type 0) (test : WebmElement → Bool) (es : List WebmElement)
    → All P es
    → All P (kept test es)
All-kept P test [] h = tt
All-kept P test (e ∷ es) (he, h) = elim (Bool-cases (test e)) [
  | inl w ↦ rw w (he, All-kept P test es h)
  | inr w ↦ rw w (All-kept P test es h)
]

body_bytes-kept : (es : List WebmElement) → body_bytes (kept in_body es) ≡ body_bytes es
body_bytes-kept [] = refl
body_bytes-kept (e ∷ es) = elim (Bool-cases (in_body e)) [
  | inl w ↦
      rw (w, body_bytes-in_body e (kept in_body es), body_bytes-in_body e es, w, body_bytes-kept es)
  | inr w ↦ rw (w, body_bytes-in_body e es, w, body_bytes-kept es)
]

module _ (order : ByteOrder) (buffers : Buffers) where
  -- Without timecodes the start stays, and what is left out changes nothing.
  observed-IsUntimed :
      (head : ClusterHead) (es : List WebmElement)
      → All IsUntimed es
      → ((observed order buffers head es).start ≡ head.start)
        × (observed order buffers head (kept in_body es) ≡ observed order buffers head es)
  unfolding observed
  observed-IsUntimed head [] h = (refl, refl)
  observed-IsUntimed head (simple_block b ∷ es) (hb, h) =
      let (start, same) = observed-IsUntimed (observe_block order buffers head b) es h in
      (start ∙ start-observe_block order buffers head b, same)
  observed-IsUntimed head (timecode t ∷ es) (ht, h) = elim ht [ ]
  observed-IsUntimed head (void ∷ es) (he, h) = observed-IsUntimed head es h
  observed-IsUntimed head (info ∷ es) (he, h) = observed-IsUntimed head es h
  observed-IsUntimed head (seek_head ∷ es) (he, h) = observed-IsUntimed head es h
  observed-IsUntimed head (cues ∷ es) (he, h) = observed-IsUntimed head es h
  observed-IsUntimed head (unknown x ∷ es) (he, h) = observed-IsUntimed head es h
  observed-IsUntimed head (ebml_head ∷ es) (he, h) = observed-IsUntimed head es h
  observed-IsUntimed head (segment ∷ es) (he, h) = observed-IsUntimed head es h
  observed-IsUntimed head (cluster ∷ es) (he, h) = observed-IsUntimed head es h
  observed-IsUntimed head (tracks x ∷ es) (he, h) = observed-IsUntimed head es h

  cluster_of-normal :
      (body : List WebmElement)
      → IsTimed body
      → cluster_of order buffers (normal_body order buffers body) ≡ cluster_of order buffers body
  unfolding observed
  cluster_of-normal [] h = elim h [ ]
  cluster_of-normal (timecode t ∷ es) h =
      let new = new_head order buffers 0 in
      let (start, same) = observed-IsUntimed (update_timecode order buffers new t) es h in
      let front =
        ap (λ (n : ℕ). cluster_of order buffers (timecode n ∷ kept in_body es))
          (start ∙ (update_timecode-head_bytes order buffers new t).0) in
      front ∙ rw (same, body_bytes-kept es)
  cluster_of-normal (void ∷ es) h = elim h [ ]
  cluster_of-normal (info ∷ es) h = elim h [ ]
  cluster_of-normal (seek_head ∷ es) h = elim h [ ]
  cluster_of-normal (cues ∷ es) h = elim h [ ]
  cluster_of-normal (unknown x ∷ es) h = elim h [ ]
  cluster_of-normal (ebml_head ∷ es) h = elim h [ ]
  cluster_of-normal (segment ∷ es) h = elim h [ ]
  cluster_of-normal (cluster ∷ es) h = elim h [ ]
  cluster_of-normal (tracks x ∷ es) h = elim h [ ]
  cluster_of-normal (simple_block b ∷ es) h = elim h [ ]

  clusters_of-normal :
      (others : List (List WebmElement))
      → All IsTimed others
      → map (cluster_of order buffers) (map (normal_body order buffers) others)
        ≡ map (cluster_of order buffers) others
  clusters_of-normal [] h = refl
  clusters_of-normal (body ∷ more) (hb, h) =
      rw (cluster_of-normal body hb, clusters_of-normal more h)

  chunks-normal :
      (ds : List Document)
      → All IsTimedDocument ds
      → chunks order buffers (map (normal order buffers) ds) ≡ chunks order buffers ds
  chunks-normal [] h = refl
  chunks-normal (d ∷ ds) (hd, h) = rw (
    written-kept d.header,
    cluster_of-normal d.first hd.first_timed,
    clusters_of-normal d.others hd.others_timed,
    chunks-normal ds h,
  )

  IsDocument-normal : (d : Document) → IsDocument d → IsDocument (normal order buffers d)
  IsDocument-normal d h = record {
    opens = h.opens;
    header_ok = All-kept IsHeaderElement is_written d.header h.header_ok;
    first_ok = (tt, All-kept IsBodyElement in_body d.first h.first_ok);
    others_ok = others d.others h.others_ok;
  }
    where
      others :
          (bodies : List (List WebmElement))
          → All (All IsBodyElement) bodies
          → All (All IsBodyElement) (map (normal_body order buffers) bodies)
      others [] k = tt
      others (body ∷ more) (kb, k) = ((tt, All-kept IsBodyElement in_body body kb), others more k)

  are_documents :
      (ds : List Document) → All IsDocument ds → All IsDocument (map (normal order buffers) ds)
  are_documents [] h = tt
  are_documents (d ∷ ds) (hd, h) = (IsDocument-normal d hd, are_documents ds h)

  -- A second chunker behind a first one gives the same chunks: for documents whose elements can be read
  -- back or are left out, and whose clusters each have one timecode, at the front, every
  -- feed of the bytes that are sent for their chunks is chunked, with no limit and fuel that is
  -- more by two than the bytes and arrivals, to just these chunks.
  pub chunk_all-sent_bytes :
      (ds : List Document) (s : List Arrival) (fuel : ℕ)
      → All IsDocument ds
      → All (IsReadable order buffers) ds
      → All IsTimedDocument ds
      → IsFeed s
      → content s ≡ sent_bytes (chunks order buffers ds)
      → length (content s) + length s + 2 ≤ fuel
      → chunk_all order buffers fuel (chunk_webm (parse_ebml s))
        ≡ some (map ok (chunks order buffers ds))
  chunk_all-sent_bytes ds s fuel documents readable timed feed same enough =
      chunk_all-chunks order buffers s (map (normal order buffers) ds) fuel feed
        (are_documents ds documents) (rw same (decode_all-sent_bytes order buffers ds readable).0)
        enough
      ∙ rw (chunks-normal ds timed)
