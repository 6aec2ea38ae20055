-- ===== src/Commands/Send/Tests.antt =====
-- The theorems on `filter` with the throttle and on `send` at concrete inputs.
use webmetro.Base.{ℕ, ◌≡◌, refl, arith, true, none, some, List, [], ◌∷◌, ◌++◌, map, ok, err}
use webmetro.Base.BigEndian.{be_bytes}
use webmetro.ByteOrder.Reference.{reference}
use webmetro.Buffers.Reference.{list_buffers}
use webmetro.Clock.Reference.{counter}
use webmetro.Error.{http_error}
use webmetro.Io.{write_all, overwrite}
use webmetro.Ebml.Varint.{encode_varint, put_number, size_loop}
use webmetro.Ebml.Varint.Encode.{varint_size}
use webmetro.Ebml.Tag.{encode_tag_header, encode_integer}
use webmetro.Webm.{encode_webm_element}
use webmetro.StreamParser.{parse_ebml}
use webmetro.Chunk.{
  observe_simpleblock_timecode, update_timecode, sign_extend, write_head, new_head, overlaps,
}
use webmetro.Chunk.Chunker.{observe_block, chunk_webm}
use webmetro.Chunk.Group.{observed, chunks}
use webmetro.Chunk.Run.{chunk_all, chunk_all-chunks}
use webmetro.Chunk.Tests.{small_feed, small_document, small_decoded, small_feed-IsFeed}
use webmetro.Fixers.{process, rebase}
use webmetro.Fixers.Pace.{Readings}
use webmetro.Fixers.Throttle.{throttle, started, snooze, pass, poll_throttled}
use webmetro.Streams.Reference.{list_streams}
use webmetro.Commands.Filter.{start_time, stop_time, Output, chunk_stream, run_filter}
use webmetro.Commands.Pipeline.{joined}
use webmetro.Commands.Copy.{IsReliable, Copies}
use webmetro.Commands.Paced.{filter_run}
use webmetro.Commands.Paced.InTime.{AreEnoughFor, filter_run-run_filter}
use webmetro.Commands.Send.{SendArgs, HttpClient, run_send}
use webmetro.Commands.Send.Sends.{window, run_send-Copies}

abbrev list_output : Output
list_output = record {
  Out = List ℕ;
  write_all = λ bytes out. (ok tt, out ++ bytes);
  shown = λ out. out;
}

list_output-IsReliable : IsReliable list_streams reference list_buffers list_output
list_output-IsReliable = record { never_fails = λ bytes out. refl; appends = λ bytes out. refl }

-- The header at once, then the cluster, and the end when the clock has reached that of the cluster.
abbrev readings : Readings counter
readings = (0, 1) ∷ (0, 1) ∷ (10, 11) ∷ []

readings_enough :
    AreEnoughFor counter list_streams reference list_buffers true none none 0 readings
      (some (map ok (chunks reference list_buffers (small_document ∷ []))))
unfolding observed observe_block observe_simpleblock_timecode update_timecode sign_extend be_bytes
    write_head varint_size encode_webm_element encode_tag_header encode_varint put_number write_all
    size_loop overwrite encode_integer new_head chunk_stream start_time stop_time overlaps process
    rebase throttle started snooze pass poll_throttled
readings_enough = ((refl, (refl, (refl, tt))), omega arith)

chunked_feed :
    chunk_all reference list_buffers 18 (chunk_webm (parse_ebml small_feed))
    ≡ some (map ok (chunks reference list_buffers (small_document ∷ [])))
chunked_feed =
    chunk_all-chunks reference list_buffers small_feed (small_document ∷ []) 18 small_feed-IsFeed
      (record { opens = tt; header_ok = tt; first_ok = (tt, tt); others_ok = tt }, tt) small_decoded
      (omega arith)

filter_run-run_filter_example :
    filter_run counter list_streams reference list_buffers list_output 18 0 readings
      (record { throttle = true; skip = none; take = none })
      small_feed
      []
    ≡ run_filter list_streams reference list_buffers list_output 18 none none small_feed []
filter_run-run_filter_example =
    filter_run-run_filter counter list_streams reference list_buffers list_output 18 0 readings
      (record { throttle = true; skip = none; take = none }) small_feed []
      (rw chunked_feed readings_enough)

-- A server that answers every request with its body, but for the location of an empty text.
abbrev echo : HttpClient
echo = record {
  Target = ℕ;
  put = λ url. elim url [ [] ↦ err (http_error 1) | b ∷ bs ↦ ok b ];
  request = λ target body. ok body;
}

abbrev send_args : SendArgs
send_args = record { url = 47 ∷ []; throttle = true; skip = none; take = none }

run_send-Copies_example :
    let sent = window reference list_buffers send_args (small_document ∷ []) in
    Copies list_streams reference list_buffers list_output
      (run_send echo counter list_streams reference list_buffers list_output 18 0 readings send_args
        small_feed [])
      []
      (joined sent)
run_send-Copies_example =
    run_send-Copies echo counter list_streams reference list_buffers list_output small_feed
      (small_document ∷ []) 18 0 readings send_args [] 47
      (window reference list_buffers send_args (small_document ∷ [])) list_output-IsReliable
      small_feed-IsFeed
      (record { opens = tt; header_ok = tt; first_ok = (tt, tt); others_ok = tt }, tt) small_decoded
      (omega arith) readings_enough refl refl
