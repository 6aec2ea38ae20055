-- ===== src/Commands/Tests.antt =====
-- The theorems on the commands at concrete inputs.
use webmetro.Base.{
  ◌↔◌, ap, inr, map, take, inl, ◌⊎◌, err, ℕ, ◌+◌, ◌≡◌, ◌∙◌, refl, sym, arith, none, some, List, [],
  ◌∷◌, ◌++◌, length, append-nil, ok,
}
use webmetro.ByteOrder.Reference.{reference}
use webmetro.Buffers.Reference.{list_buffers}
use webmetro.StreamParser.Feed.{content}
use webmetro.Webm.Stream.{written, written-IsByte}
use webmetro.Chunk.Group.{chunks}
use webmetro.Chunk.Redecode.{sent_bytes}
use webmetro.Chunk.Resend.{sent_bytes-chunks, elements-IsStorable}
use webmetro.Chunk.Tests.{small_feed, small_document, small_decoded, small_feed-IsFeed}
use webmetro.Chunk.Examples.{
  documents, documents-IsReadable, documents-IsDocument, resent, resent_feed,
}
use webmetro.Fixers.{new_fixer}
use webmetro.Fixers.Timecodes.{process_all, IsInOrder}
use webmetro.Streams.Reference.{list_streams}
use webmetro.Error.{resources_exceeded}
use webmetro.Mpsc.Reference.{numbered_queues}
use webmetro.Channel.{
  remember, retain, send, new_listener, poll_listener, drop_listener, join, queue_header,
}
use webmetro.Channel.Sound.{World, Event, sends, polls, perform, run, new_listener-with_listener}
use webmetro.Channel.Session.{got, got_at}
use webmetro.Channel.Tests.{two_queues, two_listeners, third, two_listeners-IsSound}
use webmetro.Commands.Dump.{element_line, line_of, run_dump}
use webmetro.Commands.Lines.{as_lines, run_dump-as_lines}
use webmetro.StreamParser.Run.{finished}
use webmetro.Webm.{ebml_head, cluster, timecode}
use webmetro.Commands.Copy.{IsReliable, Copies, run_filter-Copies, run_filter_again}
use webmetro.Commands.Relay.{get_stream, post_stream}
use webmetro.Commands.Broadcast.{
  visible, IsRelayed, post_stream-chunks, post_stream-FitsIn, get_stream-sent_by,
}
use webmetro.Commands.{ParseIntError, parse_time}
use webmetro.Commands.ParseTime.{IsNumber, parse_time-IsNumber}
use webmetro.Commands.Filter.{Output, run_filter}
use webmetro.Commands.Pipeline.{in_window, all_parts}
use webmetro.Base.BigEndian.{be_bytes}
use webmetro.Io.{write_all, overwrite}
use webmetro.Ebml.Varint.{encode_varint, put_number, size_loop}
use webmetro.Ebml.Varint.Encode.{varint_size}
use webmetro.Ebml.Tag.{encode_tag_header, encode_integer}
use webmetro.Webm.{encode_webm_element}
use webmetro.Chunk.{
  headers, observe_simpleblock_timecode, update_timecode, sign_extend, write_head, new_head,
}
use webmetro.Chunk.Chunker.{observe_block}
use webmetro.Chunk.Group.{observed}

abbrev describe : ParseIntError → List ℕ
describe e = []

parse_time-IsNumber_example :
    (parse_time describe (b'+' ∷ b'9' ∷ b'0' ∷ []) ≡ ok 90) ↔ IsNumber (b'+' ∷ b'9' ∷ b'0' ∷ []) 90
parse_time-IsNumber_example = parse_time-IsNumber describe (b'+' ∷ b'9' ∷ b'0' ∷ []) 90

-- An output that keeps what is written.
abbrev list_output : Output
list_output = record {
  Out = List ℕ;
  write_all = λ bytes out. (ok tt, out ++ bytes);
  shown = λ out. out;
}

list_output-IsReliable : IsReliable list_streams reference list_buffers list_output
list_output-IsReliable = record { never_fails = λ bytes out. refl; appends = λ bytes out. refl }

run_filter-Copies_example :
    Copies list_streams reference list_buffers list_output
      (run_filter list_streams reference list_buffers list_output 18
        (some 1)
        (some 2)
        small_feed
        [])
      []
      (sent_bytes (
        in_window (some 1) (some 2) (
          process_all reference list_buffers new_fixer
            (chunks reference list_buffers (small_document ∷ [])))))
run_filter-Copies_example =
    run_filter-Copies list_streams reference list_buffers list_output small_feed
      (small_document ∷ []) 18 (some 1) (some 2) [] list_output-IsReliable small_feed-IsFeed
      (record { opens = tt; header_ok = tt; first_ok = (tt, tt); others_ok = tt }, tt) small_decoded
      (omega arith)

documents-IsInOrder : IsInOrder 0 (chunks reference list_buffers documents)
unfolding observed observe_block observe_simpleblock_timecode update_timecode sign_extend be_bytes
    write_head varint_size encode_webm_element encode_tag_header encode_varint put_number write_all
    size_loop overwrite encode_integer new_head
documents-IsInOrder =
    (omega arith, omega arith, omega arith, refl, (omega arith, omega arith, omega arith, refl, tt))

run_filter_again_example :
    Copies list_streams reference list_buffers list_output
      (run_filter list_streams reference list_buffers list_output
        (length (content resent_feed) + 4)
        none
        none
        resent_feed
        [])
      []
      (content resent_feed)
run_filter_again_example =
    run_filter_again list_streams reference list_buffers list_output resent_feed documents
      (length (content resent_feed) + 4) [] list_output-IsReliable
      (
        written-IsByte reference resent
            (elements-IsStorable reference list_buffers documents documents-IsReadable),
        tt,
      )
      documents-IsDocument documents-IsReadable
      (record { first_timed = omega arith; others_timed = omega arith }, tt) documents-IsInOrder
      (append-nil (written resent)
        ∙ sym (sent_bytes-chunks reference list_buffers documents documents-IsReadable))
      (omega arith)

-- A source on a channel with two listeners.
abbrev listened : World numbered_queues
listened = (two_listeners, two_queues)

post_stream-chunks_example :
    let cs = chunks reference list_buffers (small_document ∷ []) in
    let r =
      post_stream list_streams reference list_buffers numbered_queues 18 small_feed listened in
    IsRelayed list_streams reference list_buffers numbered_queues r listened cs []
    ⊎ ((n : ℕ) × IsRelayed list_streams reference list_buffers numbered_queues r listened
          (take n cs)
          (err resources_exceeded ∷ []))
post_stream-chunks_example =
    post_stream-chunks list_streams reference list_buffers numbered_queues small_feed
      (small_document ∷ []) 18 listened small_feed-IsFeed
      (record { opens = tt; header_ok = tt; first_ok = (tt, tt); others_ok = tt }, tt) small_decoded
      (omega arith)

-- A listener that joins and polls twice: the stored header, and a chunk that is sent.
abbrev watched : List (Event numbered_queues)
watched = sends (headers (9 ∷ [])) ∷ polls 2 ∷ polls 2 ∷ []

get_stream-sent_by_example :
    get_stream list_streams reference list_buffers 6 (got numbered_queues 2 watched third)
    ≡ map ok (
        all_parts (
          visible [] (
            process_all reference list_buffers new_fixer
              (headers (1 ∷ []) ∷ headers (9 ∷ []) ∷ []))))
unfolding run perform send retain remember drop_listener poll_listener new_listener join
    queue_header got got_at
get_stream-sent_by_example =
    get_stream-sent_by list_streams reference list_buffers numbered_queues listened watched 2 third
      5 two_listeners-IsSound (new_listener-with_listener numbered_queues listened) tt
      (inr (inl refl)) refl (omega arith)

run_dump-as_lines_example :
    run_dump reference list_buffers 14 small_feed
    ≡ (element_line ebml_head ∷ element_line cluster ∷ element_line (timecode 5) ∷ [], finished)
unfolding line_of
run_dump-as_lines_example =
    run_dump-as_lines reference list_buffers small_feed 14 small_feed-IsFeed (omega arith)
    ∙ ap as_lines small_decoded

post_stream-FitsIn_example :
    IsRelayed list_streams reference list_buffers numbered_queues
      (post_stream list_streams reference list_buffers numbered_queues 18 small_feed listened)
      listened
      (chunks reference list_buffers (small_document ∷ []))
      []
unfolding be_bytes varint_size
post_stream-FitsIn_example =
    post_stream-FitsIn list_streams reference list_buffers numbered_queues small_feed
      (small_document ∷ []) 18 listened small_feed-IsFeed
      (record { opens = tt; header_ok = tt; first_ok = (tt, tt); others_ok = tt }, tt) (omega arith)
      (record { header_fits = omega arith; first_fits = omega arith; others_fit = tt }, tt)
      small_decoded (omega arith)
