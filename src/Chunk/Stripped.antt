-- ===== src/Chunk/Stripped.antt =====
-- The documents that the chunks of `chunk.rs` stand for, described without the chunker's operations: one
-- timecode at the front of each cluster, and the elements that are left out gone.
use webmetro.Base.{ℕ, ◌≡◌, ◌∙◌, refl, ap, arith, List, [], ◌∷◌, map}
use webmetro.ByteOrder.{ByteOrder}
use webmetro.Buffers.{Buffers}
use webmetro.Webm.{
  SimpleBlock, WebmElement, ebml_head, void, segment, seek_head, info, cues, cluster, tracks,
  timecode, simple_block, unknown,
}
use webmetro.Chunk.{ClusterHead, update_timecode, observe_simpleblock_timecode, new_head}
use webmetro.Chunk.Head.{update_timecode-head_bytes}
use webmetro.Chunk.Chunker.{observe_block}
use webmetro.Chunk.Documents.{Document}
use webmetro.Chunk.Group.{observed}
use webmetro.Chunk.Redecode.{is_written, in_body, kept}
use webmetro.Chunk.Normal.{normal, normal_body}

-- The time that the last timecode of a cluster gives, `time` when there is none.
abbrev pub last_time : ℕ → List WebmElement → ℕ
last_time time [] = time
last_time time (timecode t ∷ es) = last_time t es
last_time time (_ ∷ es) = last_time time es

abbrev pub stripped_body : List WebmElement → List WebmElement
stripped_body body = timecode (last_time 0 body) ∷ kept in_body body

abbrev pub stripped : Document → Document
stripped d = record {
  opening = d.opening;
  header = kept is_written d.header;
  first = stripped_body d.first;
  others = map stripped_body d.others;
}

module _ (order : ByteOrder) (buffers : Buffers) where
  pub start-observe_block :
      (head : ClusterHead) (b : SimpleBlock)
      → (observe_block order buffers head b).start ≡ head.start
  unfolding observe_block observe_simpleblock_timecode
  start-observe_block head b = ground arith

  start-observed :
      (head : ClusterHead) (es : List WebmElement)
      → (observed order buffers head es).start ≡ last_time head.start es
  unfolding observed
  start-observed head [] = refl
  start-observed head (timecode t ∷ es) =
      start-observed (update_timecode order buffers head t) es
      ∙ ap (λ (n : ℕ). last_time n es) (update_timecode-head_bytes order buffers head t).0
  start-observed head (simple_block b ∷ es) =
      start-observed (observe_block order buffers head b) es
      ∙ ap (λ (n : ℕ). last_time n es) (start-observe_block head b)
  start-observed head (void ∷ es) = start-observed head es
  start-observed head (info ∷ es) = start-observed head es
  start-observed head (seek_head ∷ es) = start-observed head es
  start-observed head (cues ∷ es) = start-observed head es
  start-observed head (unknown x ∷ es) = start-observed head es
  start-observed head (ebml_head ∷ es) = start-observed head es
  start-observed head (segment ∷ es) = start-observed head es
  start-observed head (cluster ∷ es) = start-observed head es
  start-observed head (tracks x ∷ es) = start-observed head es

  normal_body-stripped :
      (body : List WebmElement) → normal_body order buffers body ≡ stripped_body body
  unfolding new_head
  normal_body-stripped body =
      ap (λ (n : ℕ). timecode n ∷ kept in_body body)
        (start-observed (new_head order buffers 0) body
          ∙ ap (λ (n : ℕ). last_time n body) (update_timecode-head_bytes order buffers _ 0).0)

  normal_bodies-stripped :
      (bodies : List (List WebmElement))
      → map (normal_body order buffers) bodies ≡ map stripped_body bodies
  normal_bodies-stripped [] = refl
  normal_bodies-stripped (body ∷ more) =
      rw (normal_body-stripped body, normal_bodies-stripped more) refl

  pub normal-stripped : (ds : List Document) → map (normal order buffers) ds ≡ map stripped ds
  normal-stripped [] = refl
  normal-stripped (d ∷ ds) =
      rw (normal_body-stripped d.first, normal_bodies-stripped d.others, normal-stripped ds)
