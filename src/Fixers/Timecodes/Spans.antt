-- ===== src/Fixers/Timecodes/Spans.antt =====
-- Chunks in time, and a settled fixer.
use webmetro.Base.{ℕ, ◌+◌, ◌-◌, ◌%◌, ◌^◌, ◌≤◌, ◌<◌, ◌≡◌, arith, List, [], ◌∷◌, ltb, if◌then◌else◌}
use webmetro.Chunk.{Chunk, cluster_chunk}
use webmetro.Chunk.Head.{head_bytes}
use webmetro.Fixers.{ChunkTimecodeFixer, rebase}

-- No cluster ends before it starts, nor behind `bound`.
abbrev pub IsSpan : ℕ → Chunk → Type 0
IsSpan bound (cluster_chunk head body) = (head.start ≤ head.end) × (head.end ≤ bound)
IsSpan bound _ = Unit

-- `c'` is `c` with its cluster moved to some time from `last` on.
abbrev pub IsMoved : ℕ → Chunk → Chunk → Type 0
IsMoved last (cluster_chunk h b) (cluster_chunk h' b') =
    (last ≤ h'.start)
    × (h'.end ≡ h'.start + (h.end - h.start))
    × (h'.bytes ≡ head_bytes h'.start)
    × (h'.keyframe ≡ h.keyframe)
    × (b' ≡ b)
IsMoved last c c' = c' ≡ c

-- Where the next cluster may start.
abbrev pub end_of : ℕ → Chunk → ℕ
end_of last (cluster_chunk h b) = h.end
end_of last c = last

abbrev pub AreMoved : ℕ → List Chunk → List Chunk → Type 0
AreMoved last [] [] = Unit
AreMoved last [] (c' ∷ cs') = ⊥
AreMoved last (c ∷ cs) [] = ⊥
AreMoved last (c ∷ cs) (c' ∷ cs') = IsMoved last c c' × AreMoved (end_of last c') cs cs'

-- Clusters one behind the other from `last` on, with the bytes of their times, below 2^64.
abbrev pub IsInOrder : ℕ → List Chunk → Type 0
IsInOrder last [] = Unit
IsInOrder last (cluster_chunk h b ∷ cs) =
    (last ≤ h.start)
    × (h.start ≤ h.end)
    × (h.end < 2 ^ 64)
    × (h.bytes ≡ head_bytes h.start)
    × IsInOrder h.end cs
IsInOrder last (c ∷ cs) = IsInOrder last cs

-- A fixer's state with no wrap-around behind it.
pub record IsSettled (f : ChunkTimecodeFixer) : Type 0 where
  pub gap : f.assumed_duration ≡ 33
  pub offset : f.current_offset ≤ f.last_observed_timecode + 33

abbrev pub new_start : ChunkTimecodeFixer → ℕ → ℕ
new_start f start =
    if ltb start f.last_observed_timecode
    then f.last_observed_timecode + 33
    else start + f.current_offset

pub rebase-new_start :
    (f : ChunkTimecodeFixer) (start bound : ℕ)
    → IsSettled f
    → start ≤ bound
    → f.last_observed_timecode + 33 + bound < 2 ^ 64
    → (start + (rebase f start).current_offset) % 2 ^ 64 ≡ new_start f start
unfolding rebase
rebase-new_start f start bound h le room = let gap = h.gap in let offset = h.offset in ground arith

pub rebase-IsSettled :
    (f : ChunkTimecodeFixer) (start bound : ℕ)
    → IsSettled f
    → start ≤ bound
    → f.last_observed_timecode + 33 + bound < 2 ^ 64
    → (rebase f start).current_offset ≤ f.last_observed_timecode + 33
unfolding rebase
rebase-IsSettled f start bound h le room = let gap = h.gap in let offset = h.offset in ground arith

pub rebase-gap :
    (f : ChunkTimecodeFixer) (start : ℕ) → (rebase f start).assumed_duration ≡ f.assumed_duration
unfolding rebase
rebase-gap f start = ground arith

pub new_start_bounds :
    (f : ChunkTimecodeFixer) (start bound : ℕ)
    → IsSettled f
    → start ≤ bound
    → (f.last_observed_timecode ≤ new_start f start)
      × (new_start f start ≤ f.last_observed_timecode + 33 + start)
new_start_bounds f start bound h le = let offset = h.offset in ground arith
