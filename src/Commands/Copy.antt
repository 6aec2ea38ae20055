-- ===== src/Commands/Copy.antt =====
-- What `filter` writes, and that `send` sends the same.
use webmetro.Base.{
  Result-cases, ℕ, suc, ◌+◌, ◌≤◌, ◌≡◌, ◌∙◌, refl, arith, Option, none, some, List, [], ◌∷◌, ◌++◌,
  map, length, All, Result, ok, err, inl, inr, append_assoc, append-nil,
}
use webmetro.ByteOrder.{ByteOrder}
use webmetro.Buffers.{Buffers}
use webmetro.Error.{WebmetroError}
use webmetro.Webm.{webm}
use webmetro.StreamParser.{Arrival}
use webmetro.StreamParser.Feed.{content, IsFeed}
use webmetro.StreamParser.Run.{decode_all, finished}
use webmetro.Chunk.{Chunk}
use webmetro.Chunk.Documents.{Document, IsDocument, elements}
use webmetro.Chunk.Group.{chunks}
use webmetro.Chunk.Run.{chunk_all-chunks}
use webmetro.Chunk.Redecode.{chunk_bytes, sent_bytes}
use webmetro.Chunk.Normal.{IsReadable}
use webmetro.Chunk.Again.{IsTimedDocument, chunk_all-sent_bytes}
use webmetro.Fixers.{new_fixer}
use webmetro.Fixers.Timecodes.{process_all, IsInOrder, process_all_unchanged}
use webmetro.Streams.{Stream, Streams}
use webmetro.Commands.{Duration}
use webmetro.Commands.Filter.{
  Output, iter_chunk, flat_buffers, after_write, write_buffers, copy_chunks, run_filter,
}
use webmetro.Commands.Pipeline.{
  flat_buffers-nil, flat_buffers-ok, flat_buffers-err, in_window, in_window_all,
  chunk_stream-in_window, joined, parts, iter_chunk-parts,
}

module _ (streams : Streams) (order : ByteOrder) (buffers : Buffers) where
  module _ (output : Output) where
    open output use {Out, write_all, shown}

    -- An output that never fails, and shows what is written to it.
    pub record IsReliable : Type 0 where
      pub never_fails : (bytes : List ℕ) (out : Out) → (write_all bytes out).0 ≡ ok tt
      pub appends :
          (bytes : List ℕ) (out : Out) → shown (write_all bytes out).1 ≡ shown out ++ bytes

    abbrev pub Writes : Result WebmetroError (Unit {0}) × Out → Out → List ℕ → Type 0
    Writes r out bytes = (r.0 ≡ ok tt) × (shown r.1 ≡ shown out ++ bytes)

    -- Buffers written in front of others.
    write_buffers-append :
        (bs : List (List ℕ)) (r : Stream (List ℕ)) (out : Out)
        → write_buffers streams order buffers output (map ok bs ++ r) out ≡ (
            let first = write_buffers streams order buffers output (map ok bs) out in
            after_write streams order buffers output first
              (write_buffers streams order buffers output r first.1))
    unfolding write_buffers after_write
    write_buffers-append [] r out = refl
    write_buffers-append (b ∷ bs) r out = elim (Result-cases ((write_all b out).0)) [
      | inl (u, e) ↦ rw e (write_buffers-append bs r (write_all b out).1)
      | inr (x, e) ↦ rw e
    ]

    -- The body that `send` sends is what `filter` writes: for every stream of chunks, errors
    -- included, and every output, failing ones included, writing the buffers of the body one
    -- after the other has the result and the output of the loop of `filter`.
    pub write_buffers-flat_buffers :
        (items : Stream Chunk) (out : Out)
        → write_buffers streams order buffers output (flat_buffers streams order buffers items) out
          ≡ copy_chunks streams order buffers output items out
    unfolding write_buffers copy_chunks
    write_buffers-flat_buffers [] out = rw (flat_buffers-nil streams order buffers)
    write_buffers-flat_buffers (err e ∷ items) out =
        rw (flat_buffers-err streams order buffers e items)
    write_buffers-flat_buffers (ok c ∷ items) out =
        let first = write_buffers streams order buffers output (map ok (parts c)) out in
        rw
          (
            flat_buffers-ok streams order buffers c items,
            (iter_chunk-parts streams order buffers c).0,
            write_buffers-append (parts c) (flat_buffers streams order buffers items) out,
            write_buffers-flat_buffers items first.1,
          )
          refl

    -- A write that worked, and then what comes after it.
    after_write-Writes :
        (written again : Result WebmetroError (Unit {0}) × Out) (out : Out) (first more : List ℕ)
        → Writes written out first
        → Writes again written.1 more
        → Writes (after_write streams order buffers output written again) out (first ++ more)
    unfolding after_write
    after_write-Writes (ok u, out') again out first more (done, shows) (done', shows') =
        (done', shows' ∙ rw (shows, append_assoc (shown out) first more))
    after_write-Writes (err e, out') again out first more (done, shows) _ = ground arith

    pub write_buffers-Writes :
        IsReliable
        → (bs : List (List ℕ)) (out : Out)
        → Writes (write_buffers streams order buffers output (map ok bs) out) out (joined bs)
    unfolding write_buffers
    write_buffers-Writes reliable [] out = (refl, rw append-nil)
    write_buffers-Writes reliable (b ∷ bs) out =
        let written = write_all b out in
        after_write-Writes written
          (write_buffers streams order buffers output (map ok bs) written.1) out b (joined bs)
          (reliable.never_fails b out, reliable.appends b out)
          (write_buffers-Writes reliable bs written.1)

    copy_chunks-Writes :
        IsReliable
        → (cs : List Chunk) (out : Out)
        → Writes (copy_chunks streams order buffers output (map ok cs) out) out (sent_bytes cs)
    unfolding copy_chunks sent_bytes
    copy_chunks-Writes reliable [] out = (refl, rw append-nil)
    copy_chunks-Writes reliable (c ∷ cs) out =
        let (items, bytes) = iter_chunk-parts streams order buffers c in
        let written =
          write_buffers streams order buffers output (iter_chunk streams order buffers 3 c) out in
        let first : Writes written out (chunk_bytes c) =
          rw (items, ← bytes) (write_buffers-Writes reliable (parts c) out) in
        after_write-Writes written (copy_chunks streams order buffers output (map ok cs) written.1)
          out (chunk_bytes c) (sent_bytes cs) first (copy_chunks-Writes reliable cs written.1)

    -- What `filter` does with the bytes of documents.
    abbrev pub Copies : Option (Result WebmetroError (Unit {0}) × Out) → Out → List ℕ → Type 0
    Copies none out bytes = ⊥
    Copies (some r) out bytes = Writes r out bytes

    -- On a reliable output, `filter` succeeds on every feed whose bytes decode with no error to
    -- the elements of documents, and writes exactly the bytes of the documents' chunks with fixed
    -- timecodes, without the clusters that end before the seconds of `skip` are over and those
    -- that start behind the seconds of `take` after them. Fuel that is more by two than the bytes
    -- and arrivals is enough.
    pub run_filter-Copies :
        (s : List Arrival) (ds : List Document) (fuel : ℕ) (skip take : Option Duration) (out : Out)
        → IsReliable
        → IsFeed s
        → All IsDocument ds
        → decode_all (webm order) (suc (length (content s))) (content s) ≡ (elements ds, finished)
        → length (content s) + length s + 2 ≤ fuel
        → let fixed = process_all order buffers new_fixer (chunks order buffers ds) in
          Copies
            (run_filter streams order buffers output fuel skip take s out)
            out
            (sent_bytes (in_window skip take fixed))
    unfolding run_filter
    run_filter-Copies s ds fuel skip take out reliable feed good decoded enough =
        let fixed = process_all order buffers new_fixer (chunks order buffers ds) in
        rw
          (
            chunk_all-chunks order buffers s ds fuel feed good decoded enough,
            chunk_stream-in_window streams order buffers skip take (chunks order buffers ds),
          )
          (copy_chunks-Writes reliable (in_window skip take fixed) out)

    -- `filter` with no window copies unchanged what it wrote itself: on a reliable output and
    -- every feed of the bytes that are sent for the chunks of documents (whose elements can be
    -- read back or are left out, with one timecode at the front of each cluster, and whose
    -- clusters start one behind the other), with fuel that is more by two than the bytes and
    -- arrivals, it writes just these bytes.
    pub run_filter_again :
        (s : List Arrival) (ds : List Document) (fuel : ℕ) (out : Out)
        → IsReliable
        → IsFeed s
        → All IsDocument ds
        → All (IsReadable order buffers) ds
        → All IsTimedDocument ds
        → IsInOrder 0 (chunks order buffers ds)
        → content s ≡ sent_bytes (chunks order buffers ds)
        → length (content s) + length s + 2 ≤ fuel
        → Copies (run_filter streams order buffers output fuel none none s out) out (content s)
    unfolding run_filter
    run_filter_again s ds fuel out reliable feed good readable timed ordered same enough =
        let cs = chunks order buffers ds in
        let unchanged : process_all order buffers new_fixer cs ≡ cs =
          process_all_unchanged order buffers new_fixer cs refl ordered in
        rw
          (
            chunk_all-sent_bytes order buffers ds s fuel good readable timed feed same enough,
            chunk_stream-in_window streams order buffers none none cs,
            unchanged,
            in_window_all cs,
            same,
          )
          (copy_chunks-Writes reliable cs out)
