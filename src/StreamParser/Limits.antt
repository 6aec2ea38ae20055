-- ===== src/StreamParser/Limits.antt =====
-- The theorems on soft limits at concrete inputs: a limit that strikes, and what the buffer holds.
use webmetro.Base.{refl, arith, some, List, [], ◌∷◌}
use webmetro.ByteOrder.Reference.{reference}
use webmetro.Buffers.Reference.{list_buffers}
use webmetro.Webm.{webm}
use webmetro.StreamParser.{
  Arrival, later, chunk, EbmlStreamingParser, parse_ebml, with_soft_limit, poll_event,
}
use webmetro.StreamParser.Run.{poll_all}
use webmetro.StreamParser.Limit.{IsCut, poll_all-IsCut}
use webmetro.StreamParser.Bounded.{IsBounded, poll_event-IsBounded}

-- A `Void` element of five bytes, in pieces of two.
abbrev in_pieces : List Arrival
in_pieces = chunk (0xec ∷ 0x83 ∷ []) ∷ later ∷ chunk (0 ∷ 0 ∷ []) ∷ chunk (0 ∷ []) ∷ []

poll_all-IsCut_example :
    IsCut list_buffers
      (webm reference)
      (poll_all list_buffers (webm reference) 20 (with_soft_limit (parse_ebml in_pieces) 4))
      (poll_all list_buffers (webm reference) 20 (parse_ebml in_pieces))
unfolding parse_ebml
poll_all-IsCut_example =
    poll_all-IsCut list_buffers (webm reference) 4 20 (parse_ebml in_pieces) refl

abbrev limited : EbmlStreamingParser
limited = record { stream = in_pieces; buffer = []; buffer_size_limit = some 4; borrowed = [] }

poll_event-IsBounded_example : IsBounded 4 2 (poll_event list_buffers (webm reference) limited).1
poll_event-IsBounded_example =
    poll_event-IsBounded list_buffers (webm reference) 4 2 limited
      (record { limited = refl; buffered = tt; fed = omega arith; small = omega arith })
