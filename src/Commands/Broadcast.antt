-- ===== src/Commands/Broadcast.antt =====
-- What the relay server makes of a source's bytes, and what its listeners' clients get.
use webmetro.Base.{
  ◌<◌, ℕ, zero, suc, ◌+◌, ◌≤◌, ◌≡◌, ◌∙◌, refl, ap, arith, ◌⊎◌, inl, inr, Option, some, List, [],
  ◌∷◌, ◌++◌, map, take, length, All, Result, ok, err, ready, if◌then◌else◌, Bool-cases, append-nil,
}
use webmetro.ByteOrder.{ByteOrder}
use webmetro.Buffers.{Buffers}
use webmetro.Mpsc.{Mpsc}
use webmetro.Error.{WebmetroError, resources_exceeded}
use webmetro.Webm.{webm}
use webmetro.StreamParser.{Arrival, parse_ebml}
use webmetro.StreamParser.Feed.{content, IsFeed}
use webmetro.StreamParser.Run.{decode_all, finished}
use webmetro.Chunk.{Chunk}
use webmetro.Chunk.Chunker.{chunk_webm}
use webmetro.Chunk.Documents.{Document, IsDocument, elements}
use webmetro.Chunk.Group.{chunks}
use webmetro.Chunk.Run.{Items, chunk_all, chunk_all-chunks, chunk_all-FitsIn}
use webmetro.Chunk.Fits.{FitsIn}
use webmetro.Chunk.Limit.{IsCutShort, chunk_all-IsCutShort}
use webmetro.Channel.{new_listener}
use webmetro.Channel.Delivery.{header_queue}
use webmetro.Channel.Sound.{World, Event, sends, run, perform, IsSound}
use webmetro.Channel.Session.{Listed, sent_by, got, Stays}
use webmetro.Channel.InOrder.{got-sent_by}
use webmetro.Fixers.{ChunkStream, new_fixer, process, ChunkTimecodeFixer}
use webmetro.Fixers.Timecodes.{process_all}
use webmetro.Fixers.StartingPoint.{is_shown, shown, found_all-shown}
use webmetro.Streams.{Stream, Streams}
use webmetro.Commands.Pipeline.{all_parts, flat_buffers-all_parts}
use webmetro.Commands.Relay.{settled, buffer_limit, get_stream, posted, relay_chunk, post_stream}

-- The chunks that come through the starting-point finder, after `past`.
abbrev pub visible : List Chunk → List Chunk → List Chunk
visible past [] = []
visible past (c ∷ cs) =
    let rest = visible (c ∷ past) cs in if is_shown past c then c ∷ rest else rest

settled-shown :
    (past cs : List Chunk) → settled (shown past (map ready (map ok cs))) ≡ map ok (visible past cs)
unfolding settled
settled-shown past [] = refl
settled-shown past (c ∷ cs) = elim (Bool-cases (is_shown past c)) [
  | inl e ↦ rw (e, settled-shown (c ∷ past) cs)
  | inr e ↦ rw (e, settled-shown (c ∷ past) cs)
]

take-map :
    (n : ℕ) (cs : List Chunk)
    → take n (map {B = Result WebmetroError Chunk} ok cs) ≡ map ok (take n cs)
take-map zero cs = refl
take-map (suc n) [] = refl
take-map (suc n) (c ∷ cs) = ap (◌∷◌ (ok c)) (take-map n cs)

length-map {ℓ κ} :
    {A : Type ℓ} {B : Type κ} (f : A → B) (xs : List A) → length (map f xs) ≡ length xs
length-map f [] = refl
length-map f (x ∷ xs) = ap suc (length-map f xs)

module _ (streams : Streams) (order : ByteOrder) (buffers : Buffers) where
  open streams use {
    map_ok, map_ok_nil, map_ok_ok, map_ok_err, state_after, state_after_nil, state_after_ok,
    state_after_err,
  }

  map_ok-process_all :
      (f : ChunkTimecodeFixer) (cs : List Chunk)
      → map_ok (process order buffers) f (map ok cs) ≡ map ok (process_all order buffers f cs)
  unfolding process_all
  map_ok-process_all f [] = map_ok_nil (process order buffers) f
  map_ok-process_all f (c ∷ cs) =
      map_ok_ok (process order buffers) f c (map ok cs)
      ∙ rw (map_ok-process_all (process order buffers f c).1 cs)

  length-process_all :
      (f : ChunkTimecodeFixer) (cs : List Chunk)
      → length (process_all order buffers f cs) ≡ length cs
  unfolding process_all
  length-process_all f [] = refl
  length-process_all f (c ∷ cs) = ap suc (length-process_all (process order buffers f c).1 cs)

  -- The client of a listener is sent exactly the buffers of the chunks that the listener gives, with
  -- fixed timecodes and in order, without the headers but the first, and without each cluster that
  -- has no keyframe of its own and none before it since the latest header (a first header does
  -- not count as one). Fuel of one more than the chunks is enough.
  pub get_stream-visible :
      (cs : List Chunk) (fuel : ℕ)
      → length cs ≤ fuel
      → get_stream streams order buffers (suc fuel) cs
        ≡ map ok (all_parts (visible [] (process_all order buffers new_fixer cs)))
  unfolding get_stream
  get_stream-visible cs fuel enough =
      let fixed = process_all order buffers new_fixer cs in
      let items : Stream Chunk = map ok fixed in
      let polls : ChunkStream = map ready items in
      let long : length polls ≤ fuel = omega (
        arith,
        length-map ready items,
        length-map {B = Result WebmetroError Chunk} ok fixed,
        length-process_all new_fixer cs,
        enough,
      ) in
      rw (map_ok-process_all new_fixer cs, found_all-shown polls fuel long, settled-shown [] fixed)
        (flat_buffers-all_parts streams order buffers (visible [] fixed))

  posted-IsCutShort :
      (s : List Arrival) (fuel : ℕ)
      → IsCutShort order buffers
          (chunk_all order buffers fuel (posted streams order buffers s))
          (chunk_all order buffers fuel (chunk_webm (parse_ebml s)))
  unfolding posted chunk_webm parse_ebml webmetro.StreamParser.with_soft_limit
      webmetro.Chunk.Chunker.with_soft_limit
  posted-IsCutShort s fuel =
      chunk_all-IsCutShort order buffers buffer_limit buffer_limit fuel (chunk_webm (parse_ebml s))
        (refl, refl)

  module _ (mpsc : Mpsc) where
    open mpsc use {Sender, queued}

    abbrev replies : Items → Stream (List ℕ)
    replies [] = []
    replies (ok c ∷ items) = ok [] ∷ replies items
    replies (err e ∷ items) = err e ∷ replies items

    abbrev posts : Items → List (Event mpsc)
    posts [] = []
    posts (ok c ∷ items) = sends c ∷ posts items
    posts (err e ∷ items) = posts items

    relayed :
        (items : Items) (w : World mpsc)
        → (map_ok (relay_chunk streams order buffers mpsc) w items ≡ replies items)
          × (state_after (relay_chunk streams order buffers mpsc) w items
              ≡ run mpsc (posts items) w)
    unfolding run perform relay_chunk
    relayed [] w = (map_ok_nil _ w, state_after_nil _ w)
    relayed (ok c ∷ items) w =
        let (shown, after) = relayed items (perform mpsc (sends c) w) in
        (map_ok_ok _ w c items ∙ ap (◌∷◌ (ok [])) shown, state_after_ok _ w c items ∙ after)
    relayed (err e ∷ items) w =
        let (shown, after) = relayed items w in
        (map_ok_err _ w e items ∙ ap (◌∷◌ (err e)) shown, state_after_err _ w e items ∙ after)

    -- The chunks `done` have gone to the channel, and the answer's body is an empty buffer for each
    -- and then `ending`.
    abbrev pub IsRelayed :
        Option (Stream (List ℕ) × World mpsc) → World mpsc → List Chunk → Stream (List ℕ) → Type 0
    IsRelayed r w done ending =
        r ≡ some (map (λ (c : Chunk). ok []) done ++ ending, run mpsc (map sends done) w)

    posts-ok :
        (cs : List Chunk) (rest : Items)
        → (replies (map ok cs ++ rest) ≡ map (λ (c : Chunk). ok []) cs ++ replies rest)
          × (posts (map ok cs ++ rest) ≡ map sends cs ++ posts rest)
    posts-ok [] rest = (refl, refl)
    posts-ok (c ∷ cs) rest =
        let (shown, sent) = posts-ok cs rest in (ap (◌∷◌ (ok [])) shown, ap (◌∷◌ (sends c)) sent)

    post_stream-IsRelayed :
        (s : List Arrival) (fuel : ℕ) (w : World mpsc) (cs : List Chunk) (rest : Items)
        → posts rest ≡ []
        → chunk_all order buffers fuel (posted streams order buffers s) ≡ some (map ok cs ++ rest)
        → IsRelayed (post_stream streams order buffers mpsc fuel s w) w cs (replies rest)
    unfolding post_stream
    post_stream-IsRelayed s fuel w cs rest silent e =
        let (shown, after) = relayed (map ok cs ++ rest) w in
        let (replied, sent) = posts-ok cs rest in
        rw (e, shown, after, replied, sent, silent, append-nil) refl

    -- For every feed whose bytes decode with no error to the elements of documents, the channel is
    -- sent the chunks of the documents, one after the other, or the first of them, and the
    -- source's answer then ends with the error of exceeded resources; apart from that it is empty
    -- buffers, one for each chunk. The fuel that is enough without the soft limits is enough.
    pub post_stream-chunks :
        (s : List Arrival) (ds : List Document) (fuel : ℕ) (w : World mpsc)
        → IsFeed s
        → All IsDocument ds
        → decode_all (webm order) (suc (length (content s))) (content s) ≡ (elements ds, finished)
        → length (content s) + length s + 2 ≤ fuel
        → let cs = chunks order buffers ds in
          let r = post_stream streams order buffers mpsc fuel s w in
          IsRelayed r w cs [] ⊎ ((n : ℕ) × IsRelayed r w (take n cs) (err resources_exceeded ∷ []))
    post_stream-chunks s ds fuel w feed good decoded enough =
        let cs = chunks order buffers ds in
        let whole = chunk_all-chunks order buffers s ds fuel feed good decoded enough in
        let cut = rw whole at (posted-IsCutShort s fuel) in
        elim cut [
          | inl e ↦ inl (post_stream-IsRelayed s fuel w cs [] refl (e ∙ rw append-nil refl))
          | inr (n, e) ↦ inr (
            n,
            post_stream-IsRelayed s fuel w (take n cs) (err resources_exceeded ∷ []) refl
                (e ∙ rw (take-map n cs) refl),
          )
        ]

    -- A source that stays below the soft limit is relayed whole: for every feed of fewer bytes
    -- than the limit that decode with no error to the elements of documents, with a header and
    -- clusters of fewer bytes each than the limit, the channel is sent all the chunks of the
    -- documents, one after the other, and the source's answer is empty buffers, one for each, with
    -- no error. Fuel that is more by two than the bytes and arrivals is enough.
    pub post_stream-FitsIn :
        (s : List Arrival) (ds : List Document) (fuel : ℕ) (w : World mpsc)
        → IsFeed s
        → All IsDocument ds
        → length (content s) < buffer_limit
        → All (FitsIn (some buffer_limit)) ds
        → decode_all (webm order) (suc (length (content s))) (content s) ≡ (elements ds, finished)
        → length (content s) + length s + 2 ≤ fuel
        → IsRelayed (post_stream streams order buffers mpsc fuel s w) w (chunks order buffers ds) []
    unfolding posted
    post_stream-FitsIn s ds fuel w feed good small fits decoded enough =
        post_stream-IsRelayed s fuel w (chunks order buffers ds) [] refl (
          chunk_all-FitsIn order buffers s ds buffer_limit buffer_limit fuel feed good small fits
            decoded enough
          ∙ rw append-nil refl)

    -- What a client gets whose listener has joined a sound channel and has caught up: as long as the
    -- listener has not left and is still on the list, it is the buffers of the stored header, if
    -- there was one, and of all the chunks sent since, by whichever transmitter, in order,
    -- with fixed timecodes, without the headers but the first and the clusters before a starting
    -- point. Fuel of one more than the chunks that the listener got is enough.
    pub get_stream-sent_by :
        (w : World mpsc) (es : List (Event mpsc)) (s : Sender) (v : World mpsc) (fuel : ℕ)
        → IsSound mpsc w
        → new_listener mpsc w ≡ some (s, v)
        → Stays mpsc s es
        → Listed mpsc s (run mpsc es v).0.listeners
        → queued s (run mpsc es v).1 ≡ []
        → length (got mpsc s es v) ≤ fuel
        → let sent = header_queue mpsc w.0.header_chunk ++ sent_by mpsc es in
          get_stream streams order buffers (suc fuel) (got mpsc s es v)
          ≡ map ok (all_parts (visible [] (process_all order buffers new_fixer sent)))
    get_stream-sent_by w es s v fuel sound joined stays listed caught_up enough =
        let all =
          rw (caught_up, append-nil) at (got-sent_by mpsc w es s v sound joined stays listed) in
        rw all (get_stream-visible (got mpsc s es v) fuel enough)
