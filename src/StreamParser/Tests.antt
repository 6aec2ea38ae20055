-- ===== src/StreamParser/Tests.antt =====
-- The theorems on the stream parser at concrete inputs.
use webmetro.Base.{suc, ◌≡◌, arith, All, List, [], ◌∷◌, length}
use webmetro.ByteOrder.Reference.{reference}
use webmetro.Buffers.Reference.{list_buffers}
use webmetro.Webm.Typed.{IsTyped}
use webmetro.StreamParser.Typed.{poll_all-IsTyped}
use webmetro.Iterator.{collect}
use webmetro.Webm.{webm}
use webmetro.StreamParser.{Arrival, later, chunk, parse_ebml, poll_event, next}
use webmetro.StreamParser.Await.{settled, next-poll_event}
use webmetro.StreamParser.Feed.{content}
use webmetro.StreamParser.Run.{decode_all, poll_all, poll_all-decode_all, collect-decode_all}

-- A `Segment` header and a `Void` element, cut in the middle of both.
abbrev pieces : List Arrival
pieces =
    chunk (0x18 ∷ 0x53 ∷ [])
    ∷ later
    ∷ chunk (0x80 ∷ 0x67 ∷ 0xff ∷ 0xec ∷ 0x82 ∷ 0 ∷ [])
    ∷ chunk (0 ∷ [])
    ∷ []

poll_all-decode_all_example :
    poll_all list_buffers (webm reference) 20 (parse_ebml pieces)
    ≡ decode_all (webm reference) (suc (length (content pieces))) (content pieces)
poll_all-decode_all_example =
    poll_all-decode_all list_buffers (webm reference) pieces 20 (omega arith) (omega arith)

collect-decode_all_example :
    collect (webm reference) 5 (0xec ∷ 0x82 ∷ 0 ∷ 0 ∷ 0 ∷ [])
    ≡ (decode_all (webm reference) 5 (0xec ∷ 0x82 ∷ 0 ∷ 0 ∷ 0 ∷ [])).0
collect-decode_all_example = collect-decode_all (webm reference) 5 (0xec ∷ 0x82 ∷ 0 ∷ 0 ∷ 0 ∷ [])

next-poll_event_example :
    next list_buffers (webm reference) (parse_ebml pieces)
    ≡ settled list_buffers
        (webm reference)
        (poll_event list_buffers (webm reference) (parse_ebml pieces))
next-poll_event_example = next-poll_event list_buffers (webm reference) (parse_ebml pieces)

-- A block in two pieces, with a negative time.
abbrev block_pieces : List Arrival
block_pieces = chunk (0xa3 ∷ 0x85 ∷ 0x81 ∷ []) ∷ later ∷ chunk (0xff ∷ 0xfe ∷ 0x80 ∷ 9 ∷ []) ∷ []

poll_all-IsTyped_example :
    All IsTyped (poll_all list_buffers (webm reference) 12 (parse_ebml block_pieces)).0
poll_all-IsTyped_example =
    poll_all-IsTyped reference list_buffers block_pieces 12 (omega arith) (omega arith)
