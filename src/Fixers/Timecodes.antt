-- ===== src/Fixers/Timecodes.antt =====
-- The timecode fixer on whole streams of chunks.
pub mod Spans
pub use Spans.{
  IsSpan, IsMoved, end_of, AreMoved, IsInOrder, IsSettled, new_start, rebase-new_start,
  rebase-IsSettled, rebase-gap, new_start_bounds,
}
use webmetro.Base.{
  ℕ, le→ltb, ◌+◌, ◌-◌, ◌*◌, ◌%◌, ◌^◌, ◌≤◌, ◌<◌, ◌≡◌, ◌∙◌, refl, ap, arith, List, [], ◌∷◌, length,
  ltb, if◌then◌else◌, All,
}
use webmetro.ByteOrder.{ByteOrder}
use webmetro.Buffers.{Buffers}
use webmetro.Chunk.{ClusterHead, Chunk, headers, cluster_chunk, remaining_body, empty}
use webmetro.Chunk.Head.{head_bytes, update_timecode_lem}
use webmetro.Fixers.{ChunkTimecodeFixer, new_fixer, rebase, process}

module _ (order : ByteOrder) (buffers : Buffers) where
  unfoldable pub process_all : ChunkTimecodeFixer → List Chunk → List Chunk
  process_all f [] = []
  process_all f (c ∷ cs) =
      let (c', f') = process order buffers f c in let rest = process_all f' cs in c' ∷ rest

  -- The head of a cluster that comes out of the fixer.
  abbrev moved : ChunkTimecodeFixer → ClusterHead → ClusterHead
  moved f h = record {
    keyframe = h.keyframe;
    start = new_start f h.start;
    end = new_start f h.start + (h.end - h.start);
    bytes = head_bytes (new_start f h.start);
  }

  process-moved :
      (f : ChunkTimecodeFixer) (h : ClusterHead) (b : List ℕ) (bound : ℕ)
      → IsSettled f
      → IsSpan bound (cluster_chunk h b)
      → f.last_observed_timecode + 33 + bound < 2 ^ 64
      → process order buffers f (cluster_chunk h b) ≡ (
        cluster_chunk (moved f h) b,
        record (rebase f h.start) {
          last_observed_timecode = new_start f h.start + (h.end - h.start);
        },
      )
  unfolding process
  process-moved f h b bound s (ordered, small) room =
      let (low, high) = new_start_bounds f h.start bound s (omega (arith, ordered, small)) in
      rw (
        rebase-new_start f h.start bound s (omega (arith, ordered, small)) room,
        update_timecode_lem order buffers h (new_start f h.start) ordered (omega arith)
            (omega arith),
      )

  -- The fixer after a cluster: settled again, and further by a bounded time.
  process-IsSettled :
      (f : ChunkTimecodeFixer) (h : ClusterHead) (b : List ℕ) (bound : ℕ)
      → IsSettled f
      → IsSpan bound (cluster_chunk h b)
      → f.last_observed_timecode + 33 + bound < 2 ^ 64
      → let f' = (process order buffers f (cluster_chunk h b)).1 in
        IsSettled f' × (f'.last_observed_timecode ≤ f.last_observed_timecode + 33 + bound)
  process-IsSettled f h b bound s (ordered, small) room =
      let (low, high) = new_start_bounds f h.start bound s (omega (arith, ordered, small)) in
      let o = rebase-IsSettled f h.start bound s (omega (arith, ordered, small)) room in
      rw (process-moved f h b bound s (ordered, small) room)
        (record { gap = rebase-gap f h.start ∙ s.gap; offset = omega arith }, omega arith)

  process_all-cluster :
      (f : ChunkTimecodeFixer) (h : ClusterHead) (b : List ℕ) (cs : List Chunk) (bound : ℕ)
      → IsSettled f
      → IsSpan bound (cluster_chunk h b)
      → f.last_observed_timecode + 33 + bound < 2 ^ 64
      → (let f' = (process order buffers f (cluster_chunk h b)).1 in
          AreMoved f'.last_observed_timecode cs (process_all f' cs))
      → AreMoved f.last_observed_timecode
          (cluster_chunk h b ∷ cs)
          (process_all f (cluster_chunk h b ∷ cs))
  unfolding process_all
  process_all-cluster f h b cs bound s hc room rest =
      let (low, high) = new_start_bounds f h.start bound s (omega (arith, hc.0, hc.1)) in
      let e = process-moved f h b bound s hc room in
      rw e ((low, refl, refl, refl, refl), rw e at rest)

  -- On every stream of clusters that do not end before they start or behind `bound`, with room for as
  -- many of them below 2^64, a settled fixer passes each chunk on, in order, and moves each cluster
  -- with its duration, keyframe flag and body to a time from the end of the one before it on, and
  -- gives it the bytes for that time.
  pub process_all-AreMoved :
      (f : ChunkTimecodeFixer) (cs : List Chunk) (bound : ℕ)
      → IsSettled f
      → All (IsSpan bound) cs
      → f.last_observed_timecode + length cs * (bound + 33) < 2 ^ 64
      → AreMoved f.last_observed_timecode cs (process_all f cs)
  unfolding process_all process
  process_all-AreMoved f [] bound s h room = tt
  process_all-AreMoved f (headers bytes ∷ cs) bound s (hc, h) room =
      (refl, process_all-AreMoved f cs bound s h (omega (arith, room)))
  process_all-AreMoved f (remaining_body bytes ∷ cs) bound s (hc, h) room =
      (refl, process_all-AreMoved f cs bound s h (omega (arith, room)))
  process_all-AreMoved f (empty ∷ cs) bound s (hc, h) room =
      (refl, process_all-AreMoved f cs bound s h (omega (arith, room)))
  process_all-AreMoved f (cluster_chunk hd b ∷ cs) bound s (hc, h) room =
      let near : f.last_observed_timecode + 33 + bound < 2 ^ 64 = omega arith in
      let (s', last) = process-IsSettled f hd b bound s hc near in
      process_all-cluster f hd b cs bound s hc near (
        process_all-AreMoved (process order buffers f (cluster_chunk hd b)).1 cs bound s' h
          (omega arith))

  process_all_cluster-IsInOrder :
      (f : ChunkTimecodeFixer) (h : ClusterHead) (b : List ℕ) (cs : List Chunk) (bound : ℕ)
      → IsSettled f
      → IsSpan bound (cluster_chunk h b)
      → f.last_observed_timecode + 33 + bound < 2 ^ 64
      → (let f' = (process order buffers f (cluster_chunk h b)).1 in
          IsInOrder f'.last_observed_timecode (process_all f' cs))
      → IsInOrder f.last_observed_timecode (process_all f (cluster_chunk h b ∷ cs))
  unfolding process_all
  process_all_cluster-IsInOrder f h b cs bound s hc room rest =
      let (low, high) = new_start_bounds f h.start bound s (omega (arith, hc.0, hc.1)) in
      let e = process-moved f h b bound s hc room in
      rw e (low, omega arith, omega (arith, hc.0, hc.1), refl, rw e at rest)

  process_all-IsInOrder :
      (f : ChunkTimecodeFixer) (cs : List Chunk) (bound : ℕ)
      → IsSettled f
      → All (IsSpan bound) cs
      → f.last_observed_timecode + length cs * (bound + 33) < 2 ^ 64
      → IsInOrder f.last_observed_timecode (process_all f cs)
  unfolding process_all process
  process_all-IsInOrder f [] bound s h room = tt
  process_all-IsInOrder f (headers bytes ∷ cs) bound s (hc, h) room =
      process_all-IsInOrder f cs bound s h (omega (arith, room))
  process_all-IsInOrder f (remaining_body bytes ∷ cs) bound s (hc, h) room =
      process_all-IsInOrder f cs bound s h (omega (arith, room))
  process_all-IsInOrder f (empty ∷ cs) bound s (hc, h) room =
      process_all-IsInOrder f cs bound s h (omega (arith, room))
  process_all-IsInOrder f (cluster_chunk hd b ∷ cs) bound s (hc, h) room =
      let near : f.last_observed_timecode + 33 + bound < 2 ^ 64 = omega arith in
      let (s', last) = process-IsSettled f hd b bound s hc near in
      process_all_cluster-IsInOrder f hd b cs bound s hc near (
        process_all-IsInOrder (process order buffers f (cluster_chunk hd b)).1 cs bound s' h
          (omega arith))

  process-fixed :
      (f : ChunkTimecodeFixer) (h : ClusterHead) (b : List ℕ)
      → f.current_offset ≡ 0
      → f.last_observed_timecode ≤ h.start
      → h.start ≤ h.end
      → h.end < 2 ^ 64
      → h.bytes ≡ head_bytes h.start
      → process order buffers f (cluster_chunk h b)
        ≡ (cluster_chunk h b, record f { last_observed_timecode = h.end })
  unfolding process rebase
  process-fixed f h b zero_offset late ordered small e =
      let time : (h.start + 0) % 2 ^ 64 ≡ h.start = omega arith in
      let end : h.start + (h.end - h.start) ≡ h.end = omega arith in
      rw (
        le→ltb h.start f.last_observed_timecode late,
        zero_offset,
        time,
        update_timecode_lem order buffers h h.start ordered small (omega arith),
        end,
        ← e,
      )

  process_all-fixed :
      (f : ChunkTimecodeFixer) (h : ClusterHead) (b : List ℕ) (cs : List Chunk)
      → f.current_offset ≡ 0
      → f.last_observed_timecode ≤ h.start
      → h.start ≤ h.end
      → h.end < 2 ^ 64
      → h.bytes ≡ head_bytes h.start
      → process_all (record f { last_observed_timecode = h.end }) cs ≡ cs
      → process_all f (cluster_chunk h b ∷ cs) ≡ cluster_chunk h b ∷ cs
  unfolding process_all
  process_all-fixed f h b cs z late ordered small e rest =
      rw (process-fixed f h b z late ordered small e, rest)

  -- With no offset so far, a stream of clusters that already start one behind the other from the last
  -- observed time on, end below 2^64, and carry the bytes of their times is passed on as it is.
  pub process_all_unchanged :
      (f : ChunkTimecodeFixer) (cs : List Chunk)
      → f.current_offset ≡ 0
      → IsInOrder f.last_observed_timecode cs
      → process_all f cs ≡ cs
  unfolding process_all process
  process_all_unchanged f [] z h = refl
  process_all_unchanged f (headers bytes ∷ cs) z h =
      ap (◌∷◌ (headers bytes)) (process_all_unchanged f cs z h)
  process_all_unchanged f (remaining_body bytes ∷ cs) z h =
      ap (◌∷◌ (remaining_body bytes)) (process_all_unchanged f cs z h)
  process_all_unchanged f (empty ∷ cs) z h = ap (◌∷◌ empty) (process_all_unchanged f cs z h)
  process_all_unchanged f (cluster_chunk hd b ∷ cs) z (late, ordered, small, e, h) =
      process_all-fixed f hd b cs z late ordered small e
        (process_all_unchanged (record f { last_observed_timecode = hd.end }) cs z h)

  -- A second new fixer behind a new fixer changes nothing, on every stream of clusters that do not end before
  -- they start or behind `bound`, with room for as many of them below 2^64.
  pub process_all-process_all :
      (cs : List Chunk) (bound : ℕ)
      → All (IsSpan bound) cs
      → length cs * (bound + 33) < 2 ^ 64
      → process_all new_fixer (process_all new_fixer cs) ≡ process_all new_fixer cs
  process_all-process_all cs bound h room =
      process_all_unchanged new_fixer (process_all new_fixer cs) refl (
        process_all-IsInOrder new_fixer cs bound (record { gap = refl; offset = omega arith }) h
          (omega arith))
