-- ===== src/Chunk/Limit/Element.antt =====
-- The soft limit of the chunker at one element: the step without it, or an error.
use webmetro.Base.{ℕ, ◌≡◌, refl, ◌⊎◌, inl, inr, none, some, length, leb, err, Bool-cases}
use webmetro.ByteOrder.{ByteOrder}
use webmetro.Buffers.{Buffers}
use webmetro.Error.{resources_exceeded}
use webmetro.Io.{Cursor, new_vec}
use webmetro.Webm.{
  WebmElement, ebml_head, void, segment, seek_head, cues, tracks, info, cluster, timecode,
  simple_block, unknown,
}
use webmetro.Chunk.{Chunk, ClusterHead, cluster_chunk}
use webmetro.Chunk.Chunker.{
  ChunkerState, building_header, building_cluster, ended, is_full, Step, emit, encode, stored,
  restarted, in_header, in_cluster, on_element,
}

-- A step under a limit, and the step without one.
abbrev pub IsLimitedStep : Step → Step → Type 0
IsLimitedStep step free = (step ≡ free) ⊎ (step ≡ emit (err resources_exceeded) ended)

module _ (order : ByteOrder) (buffers : Buffers) where
  stored-IsLimitedStep :
      (limit : ℕ) (into : Cursor → ChunkerState) (x : WebmElement) (buffer : Cursor)
      → IsLimitedStep
          (stored order buffers into (encode order buffers x buffer (some limit)))
          (stored order buffers into (encode order buffers x buffer none))
  unfolding stored encode is_full
  stored-IsLimitedStep limit into x buffer = elim (Bool-cases (leb limit (length buffer.bytes))) [
    | inl full ↦ rw full (inr refl)
    | inr room ↦ rw room (inl refl)
  ]

  restarted-IsLimitedStep :
      (limit : ℕ) (done : Chunk) (x : WebmElement)
      → IsLimitedStep
          (restarted order buffers done (encode order buffers x new_vec (some limit)))
          (restarted order buffers done (encode order buffers x new_vec none))
  unfolding restarted encode is_full
  restarted-IsLimitedStep limit done x = elim (Bool-cases (leb limit 0)) [
    | inl full ↦ rw full (inr refl)
    | inr room ↦ rw room (inl refl)
  ]

  in_header-IsLimitedStep :
      (limit : ℕ) (b : Cursor) (x : WebmElement)
      → IsLimitedStep (in_header order buffers (some limit) b x) (in_header order buffers none b x)
  unfolding in_header
  in_header-IsLimitedStep limit b cluster = inl refl
  in_header-IsLimitedStep limit b info = inl refl
  in_header-IsLimitedStep limit b void = inl refl
  in_header-IsLimitedStep limit b (unknown i) = inl refl
  in_header-IsLimitedStep limit b ebml_head = stored-IsLimitedStep limit building_header ebml_head b
  in_header-IsLimitedStep limit b segment = stored-IsLimitedStep limit building_header segment b
  in_header-IsLimitedStep limit b seek_head = stored-IsLimitedStep limit building_header seek_head b
  in_header-IsLimitedStep limit b cues = stored-IsLimitedStep limit building_header cues b
  in_header-IsLimitedStep limit b (tracks d) =
      stored-IsLimitedStep limit building_header (tracks d) b
  in_header-IsLimitedStep limit b (timecode t) =
      stored-IsLimitedStep limit building_header (timecode t) b
  in_header-IsLimitedStep limit b (simple_block d) =
      stored-IsLimitedStep limit building_header (simple_block d) b

  in_cluster-IsLimitedStep :
      (limit : ℕ) (h : ClusterHead) (b : Cursor) (x : WebmElement)
      → IsLimitedStep
          (in_cluster order buffers (some limit) h b x)
          (in_cluster order buffers none h b x)
  unfolding in_cluster
  in_cluster-IsLimitedStep limit h b ebml_head =
      restarted-IsLimitedStep limit (cluster_chunk h b.bytes) ebml_head
  in_cluster-IsLimitedStep limit h b segment =
      restarted-IsLimitedStep limit (cluster_chunk h b.bytes) segment
  in_cluster-IsLimitedStep limit h b cluster = inl refl
  in_cluster-IsLimitedStep limit h b (timecode t) = inl refl
  in_cluster-IsLimitedStep limit h b info = inl refl
  in_cluster-IsLimitedStep limit h b void = inl refl
  in_cluster-IsLimitedStep limit h b (unknown i) = inl refl
  in_cluster-IsLimitedStep limit h b (simple_block d) =
      stored-IsLimitedStep limit _ (simple_block d) b
  in_cluster-IsLimitedStep limit h b seek_head =
      stored-IsLimitedStep limit (building_cluster h) seek_head b
  in_cluster-IsLimitedStep limit h b cues = stored-IsLimitedStep limit (building_cluster h) cues b
  in_cluster-IsLimitedStep limit h b (tracks d) =
      stored-IsLimitedStep limit (building_cluster h) (tracks d) b

  pub on_element-IsLimitedStep :
      (limit : ℕ) (s : ChunkerState) (x : WebmElement)
      → IsLimitedStep
          (on_element order buffers (some limit) s x)
          (on_element order buffers none s x)
  unfolding on_element
  on_element-IsLimitedStep limit (building_header b) x = in_header-IsLimitedStep limit b x
  on_element-IsLimitedStep limit (building_cluster h b) x = in_cluster-IsLimitedStep limit h b x
  on_element-IsLimitedStep limit ended x = inl refl
