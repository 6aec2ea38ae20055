-- ===== src/Channel/Tests.antt =====
-- The theorems on channels at concrete inputs.
use webmetro.Base.{List, ◌++◌, inl, refl, ℕ, ◌<◌, ◌≡◌, arith, some, [], ◌∷◌}
use webmetro.Chunk.{Chunk, headers, empty}
use webmetro.Mpsc.Reference.{Store, numbered_queues}
use webmetro.Channel.{
  Channel, remember, retain, send, new_listener, poll_listener, drop_listener, join, queue_header,
}
use webmetro.Channel.Sound.{
  World, Event, sends, joins, polls, leaves, perform, run, IsSound, with_listener,
  new_listener-with_listener,
}
use webmetro.Channel.Session.{got}
use webmetro.Channel.InOrder.{got-sent_by, run-last_header}
use webmetro.Channel.Delivery.{with_room, AreDelivered, send-with_room, joined, new_listener-joined}

-- Two listeners, of which the first has no room left.
abbrev pub two_queues : Store
two_queues = record { count = 2; queue = λ s. []; space = λ s. s }

abbrev pub two_listeners : Channel numbered_queues
two_listeners = record { name = []; header_chunk = some (headers (1 ∷ [])); listeners = 0 ∷ 1 ∷ [] }

abbrev new_header : Chunk
new_header = headers (9 ∷ [])

send-with_room_example :
    let (c', q') = send numbered_queues new_header (two_listeners, two_queues) in
    (c'.listeners ≡ with_room numbered_queues two_queues (0 ∷ 1 ∷ []))
    × (c'.header_chunk ≡ some new_header)
    × AreDelivered numbered_queues new_header two_queues q' (0 ∷ 1 ∷ [])
send-with_room_example =
    send-with_room numbered_queues new_header two_listeners two_queues
      (((λ e. omega (arith, e)), tt), (tt, tt))

new_listener-joined_example :
    (s : ℕ) × (q' : Store) × (new_listener numbered_queues (two_listeners, two_queues)
      ≡ joined numbered_queues two_listeners s q')
    × (q'.queue s ≡ headers (1 ∷ []) ∷ [])
    × (4 < q'.space s)
new_listener-joined_example = new_listener-joined numbered_queues two_listeners two_queues

pub two_listeners-IsSound : IsSound numbered_queues (two_listeners, two_queues)
two_listeners-IsSound = record {
  distinct = (((λ e. omega (arith, e)), tt), (tt, tt));
  made = (omega arith, (omega arith, tt));
}

-- Two chunks for a new listener, with a poll of its own, one of another, and one that leaves.
abbrev steps : List (Event numbered_queues)
steps = sends new_header ∷ polls 2 ∷ leaves 1 ∷ sends empty ∷ polls 0 ∷ joins ∷ []

abbrev pub third : World numbered_queues
third = with_listener numbered_queues (two_listeners, two_queues)

got-sent_by_example :
    headers (1 ∷ []) ∷ new_header ∷ empty ∷ []
    ≡ got numbered_queues 2 steps third ++ (run numbered_queues steps third).1.queue 2
unfolding run perform send retain remember drop_listener poll_listener new_listener join
    queue_header
got-sent_by_example =
    got-sent_by numbered_queues (two_listeners, two_queues) steps 2 third two_listeners-IsSound
      (new_listener-with_listener numbered_queues (two_listeners, two_queues))
      ((λ e. omega (arith, e)), tt) (inl refl)

run-last_header_example :
    (run numbered_queues steps (two_listeners, two_queues)).0.header_chunk ≡ some new_header
run-last_header_example = run-last_header numbered_queues steps (two_listeners, two_queues)
