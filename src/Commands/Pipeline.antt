-- ===== src/Commands/Pipeline.antt =====
-- What the chain of adapters gives, and what `filter` writes.
use webmetro.Base.{
  append-nil, ltb, ◌*◌, Bool, false, ◌||◌, not, none, some, ap, ℕ, ◌+◌, ◌%◌, ◌^◌, ◌<◌, ◌≡◌, ◌∙◌,
  refl, arith, true, Option, List, [], ◌∷◌, ◌++◌, map, map-append, All, Result, ok, err, Bool-cases,
  inl, inr, if◌then◌else◌,
}
use webmetro.ByteOrder.{ByteOrder}
use webmetro.Buffers.{Buffers}
use webmetro.Error.{WebmetroError}
use webmetro.Chunk.{Chunk, headers, cluster_chunk, remaining_body, empty, overlaps, chunk_next}
use webmetro.Chunk.Head.{update_timecode-head_bytes}
use webmetro.Chunk.Redecode.{chunk_bytes}
use webmetro.Fixers.{ChunkTimecodeFixer, new_fixer, process, rebase}
use webmetro.Fixers.Timecodes.{process_all}
use webmetro.Streams.{Stream, Streams}
use webmetro.Commands.{Duration, as_millis}
use webmetro.Commands.Filter.{start_time, stop_time, chunk_stream, iter_chunk, flat_buffers}

-- The chunks that a test lets through.
abbrev select : ℕ → ℕ → List Chunk → List Chunk
select start stop [] = []
select start stop (c ∷ cs) =
    if overlaps c start stop then c ∷ select start stop cs else select start stop cs

-- A time in milliseconds before the first `skip` seconds are over, or behind the `take` seconds
-- after them.
abbrev pub is_early : Option Duration → ℕ → Bool
is_early none time = false
is_early (some skip) time = ltb time (1000 * skip)

abbrev pub is_late : Option Duration → Option Duration → ℕ → Bool
is_late skip none time = false
is_late none (some take) time = ltb (1000 * take) time
is_late (some skip) (some take) time = ltb (1000 * (skip + take)) time

-- A cluster is left out if it ends too early or starts too late; nothing else is.
abbrev pub is_shown : Option Duration → Option Duration → Chunk → Bool
is_shown skip take (cluster_chunk head body) =
    not (is_early skip head.end || is_late skip take head.start)
is_shown skip take _ = true

abbrev pub in_window : Option Duration → Option Duration → List Chunk → List Chunk
in_window skip take [] = []
in_window skip take (c ∷ cs) =
    let rest = in_window skip take cs in if is_shown skip take c then c ∷ rest else rest

abbrev StartsIn64 : Chunk → Type 0
StartsIn64 (cluster_chunk head body) = head.start < 2 ^ 64
StartsIn64 _ = Unit

overlaps-is_shown :
    (skip take : Option Duration) (c : Chunk)
    → StartsIn64 c
    → overlaps c (start_time skip) (stop_time take (start_time skip)) ≡ is_shown skip take c
unfolding overlaps start_time stop_time as_millis
overlaps-is_shown none none (cluster_chunk head body) h = ground arith
overlaps-is_shown none (some take) (cluster_chunk head body) h = ground arith
overlaps-is_shown (some skip) none (cluster_chunk head body) h = ground arith
overlaps-is_shown (some skip) (some take) (cluster_chunk head body) h = ground arith
overlaps-is_shown skip take (headers bytes) h = refl
overlaps-is_shown skip take (remaining_body bytes) h = refl
overlaps-is_shown skip take empty h = refl

select-in_window :
    (skip take : Option Duration) (cs : List Chunk)
    → All StartsIn64 cs
    → select (start_time skip) (stop_time take (start_time skip)) cs ≡ in_window skip take cs
select-in_window skip take [] h = refl
select-in_window skip take (c ∷ cs) (hc, h) =
    rw (overlaps-is_shown skip take c hc, select-in_window skip take cs h) refl

-- With no window, all.
pub in_window_all : (cs : List Chunk) → in_window none none cs ≡ cs
in_window_all [] = refl
in_window_all (cluster_chunk head body ∷ cs) = ap (◌∷◌ (cluster_chunk head body)) (in_window_all cs)
in_window_all (headers bytes ∷ cs) = ap (◌∷◌ (headers bytes)) (in_window_all cs)
in_window_all (remaining_body bytes ∷ cs) = ap (◌∷◌ (remaining_body bytes)) (in_window_all cs)
in_window_all (empty ∷ cs) = ap (◌∷◌ empty) (in_window_all cs)

-- The buffers of a chunk, and of many.
abbrev pub parts : Chunk → List (List ℕ)
parts (headers bytes) = bytes ∷ []
parts (cluster_chunk head body) = head.bytes ∷ body ∷ []
parts (remaining_body bytes) = bytes ∷ []
parts empty = []

abbrev pub all_parts : List Chunk → List (List ℕ)
all_parts [] = []
all_parts (c ∷ cs) = parts c ++ all_parts cs

abbrev pub joined : List (List ℕ) → List ℕ
joined [] = []
joined (b ∷ bs) = b ++ joined bs

module _ (streams : Streams) (order : ByteOrder) (buffers : Buffers) where
  open streams use {
    map_ok, try_filter, map_ok_err, try_flatten_ok, try_flatten_err, try_flatten_nil, map_ok_nil,
    map_ok_ok, try_filter_nil, try_filter_ok,
  }

  process-StartsIn64 :
      (f : ChunkTimecodeFixer) (c : Chunk) → StartsIn64 (process order buffers f c).0
  unfolding process
  process-StartsIn64 f (cluster_chunk head body) =
      let time = (head.start + (rebase f head.start).current_offset) % 2 ^ 64 in
      rw (update_timecode-head_bytes order buffers head time).0 (omega arith)
  process-StartsIn64 f (headers bytes) = tt
  process-StartsIn64 f (remaining_body bytes) = tt
  process-StartsIn64 f empty = tt

  process_all-StartsIn64 :
      (f : ChunkTimecodeFixer) (cs : List Chunk) → All StartsIn64 (process_all order buffers f cs)
  unfolding process_all
  process_all-StartsIn64 f [] = tt
  process_all-StartsIn64 f (c ∷ cs) =
      (process-StartsIn64 f c, process_all-StartsIn64 (process order buffers f c).1 cs)

  select-process_all :
      (start stop : ℕ) (f : ChunkTimecodeFixer) (cs : List Chunk)
      → try_filter
          (λ chunk. overlaps chunk start stop)
          (map_ok (process order buffers) f (map ok cs))
        ≡ map ok (select start stop (process_all order buffers f cs))
  unfolding process_all
  select-process_all start stop f [] =
      rw (map_ok_nil (process order buffers) f, try_filter_nil (λ chunk. overlaps chunk start stop))
  select-process_all start stop f (c ∷ cs) =
      let c' = (process order buffers f c).0 in
      let f' = (process order buffers f c).1 in
      let test = λ (chunk : Chunk). overlaps chunk start stop in
      let oks : Stream Chunk = map ok cs in
      elim (Bool-cases (overlaps c' start stop)) [
        | inl e ↦ rw (
          map_ok_ok (process order buffers) f c oks,
          try_filter_ok test c' (map_ok (process order buffers) f' oks),
          e,
          select-process_all start stop f' cs,
        )
        | inr e ↦ rw (
          map_ok_ok (process order buffers) f c oks,
          try_filter_ok test c' (map_ok (process order buffers) f' oks),
          e,
          select-process_all start stop f' cs,
        )
      ]

  -- With no error among the items, the chain lets through the processed chunks in the window.
  pub chunk_stream-in_window :
      (skip take : Option Duration) (cs : List Chunk)
      → chunk_stream streams order buffers skip take (map ok cs)
        ≡ map ok (in_window skip take (process_all order buffers new_fixer cs))
  unfolding chunk_stream
  chunk_stream-in_window skip take cs =
      let start = start_time skip in
      select-process_all start (stop_time take start) new_fixer cs
      ∙ ap (map ok) (
          select-in_window skip take (process_all order buffers new_fixer cs)
            (process_all-StartsIn64 new_fixer cs))

  pub iter_chunk-parts :
      (c : Chunk)
      → (iter_chunk streams order buffers 3 c ≡ map ok (parts c))
        × (joined (parts c) ≡ chunk_bytes c)
  unfolding iter_chunk chunk_next
  iter_chunk-parts (headers bytes) = (refl, rw append-nil)
  iter_chunk-parts (cluster_chunk head body) = (refl, rw append-nil)
  iter_chunk-parts (remaining_body bytes) = (refl, rw append-nil)
  iter_chunk-parts empty = (refl, refl)

  pub flat_buffers-ok :
      (c : Chunk) (items : Stream Chunk)
      → flat_buffers streams order buffers (ok c ∷ items)
        ≡ iter_chunk streams order buffers 3 c ++ flat_buffers streams order buffers items
  unfolding flat_buffers
  flat_buffers-ok c items =
      let step : Unit {0} → Chunk → Stream (List ℕ) × Unit {0} =
        λ u chunk. (iter_chunk streams order buffers 3 chunk, u) in
      ap streams.try_flatten (map_ok_ok step tt c items)
      ∙ try_flatten_ok (iter_chunk streams order buffers 3 c) (map_ok step tt items)

  pub flat_buffers-err :
      (e : WebmetroError) (items : Stream Chunk)
      → flat_buffers streams order buffers (err e ∷ items)
        ≡ err e ∷ flat_buffers streams order buffers items
  unfolding flat_buffers
  flat_buffers-err e items =
      let step : Unit {0} → Chunk → Stream (List ℕ) × Unit {0} =
        λ u chunk. (iter_chunk streams order buffers 3 chunk, u) in
      ap streams.try_flatten (map_ok_err step tt e items) ∙ try_flatten_err e (map_ok step tt items)

  pub flat_buffers-nil : flat_buffers streams order buffers [] ≡ []
  unfolding flat_buffers
  flat_buffers-nil =
      let step : Unit {0} → Chunk → Stream (List ℕ) × Unit {0} =
        λ u chunk. (iter_chunk streams order buffers 3 chunk, u) in
      ap streams.try_flatten (map_ok_nil step tt) ∙ try_flatten_nil

  -- The buffers of a stream of chunks with no error.
  pub flat_buffers-all_parts :
      (cs : List Chunk) → flat_buffers streams order buffers (map ok cs) ≡ map ok (all_parts cs)
  flat_buffers-all_parts [] = flat_buffers-nil
  flat_buffers-all_parts (c ∷ cs) =
      flat_buffers-ok c (map ok cs)
      ∙ rw (
        (iter_chunk-parts c).0,
        flat_buffers-all_parts cs,
        map-append {B = Result WebmetroError (List ℕ)} ok (parts c) (all_parts cs),
      )
