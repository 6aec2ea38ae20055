-- ===== src/Commands/Server/Tests.antt =====
-- The theorems on the server at concrete inputs.
use mathlib.Core.Path.{subst}
use webmetro.Base.{
  ℕ, ◌≡◌, refl, ap, ◌≢◌, ◌∙◌, inl, inr, arith, Bool-cases, ◌==◌, true, none, List, [], ◌∷◌, ◌++◌,
  set, ==_iff,
}
use webmetro.Chunk.{headers, empty}
use webmetro.Channel.{
  Channel, new_channel, send, remember, retain, queue_header, join, new_listener, poll_listener,
  drop_listener,
}
use webmetro.Channel.Sound.{perform}
use webmetro.Mpsc.Reference.{Store, numbered_queues}
use webmetro.WeakTable.Reference.{lasting_table, stores}
use webmetro.Commands.Server.{
  get, post, put, Server, new_server, is_alive, ServerEvent, requests, transmits, reads, departs,
  serve, serve_all, route, transmits_to, listens_to, or_else, filtered, head_found, get_found,
  post_found, channel_filter, locate, inserted, with_world, drop_first, without, channel_of,
  listened, polled, left, Request,
}
use webmetro.Commands.Server.Locate.{IsRunning}
use webmetro.Commands.Server.Served.{serve_all-IsRunning}
use webmetro.Commands.Server.Lookup.{request_for, route-live, IsAnswered}
use webmetro.Commands.Server.Vacant.{IsVacant, route-vacant}
use webmetro.Commands.Server.Viewer.{read}
use webmetro.Commands.Server.Relayed.{get_in_order}

abbrev no_queues : Store
no_queues = record { count = 0; queue = λ s. []; space = λ s. 0 }

abbrev channel_name : List ℕ
channel_name = 120 ∷ []

abbrev posts : List (ServerEvent numbered_queues lasting_table)
posts = requests (request_for post channel_name) ∷ []

abbrev named_channel : Channel numbered_queues
named_channel = record { name = channel_name; header_chunk = none; listeners = [] }

-- The server with one source, on the third channel that has been made.
abbrev posted : Server numbered_queues lasting_table
posted = record {
  table = stores channel_name 2 (stores channel_name 1 (stores channel_name 0 (λ name. none)));
  channels = set 2 named_channel (
      set 1 named_channel
        (set 0 named_channel (λ h. record { name = []; header_chunk = none; listeners = [] })));
  next = 3;
  queues = no_queues;
  transmitters = 2 ∷ [];
  listeners = [];
}

posts-posted :
    serve_all numbered_queues lasting_table posts
      (new_server numbered_queues lasting_table no_queues)
    ≡ posted
unfolding is_alive transmits_to serve_all serve route or_else filtered head_found get_found
    post_found channel_filter locate inserted new_server listens_to new_channel
posts-posted = refl

posted-IsRunning : IsRunning numbered_queues lasting_table posted
posted-IsRunning =
    subst (IsRunning numbered_queues lasting_table) posts-posted
      (serve_all-IsRunning numbered_queues lasting_table no_queues posts)

posted_lives : is_alive numbered_queues lasting_table posted 2 ≡ true
unfolding is_alive transmits_to
posted_lives = refl

abbrev other_name : List ℕ
other_name = 121 ∷ []

different_names : channel_name ≢ other_name
different_names e = ground arith

posted-IsVacant : IsVacant numbered_queues lasting_table other_name posted
unfolding is_alive transmits_to listens_to
posted-IsVacant h lives same = elim (Bool-cases (2 == h)) [
  | inl at_2 ↦
      let here : channel_name ≡ (posted.channels h).name =
        ap (λ k. (posted.channels k).name) ((==_iff 2 h).0 at_2) in
      different_names (here ∙ same)
  | inr other ↦ cc (rw other at lives)
]

route-live_example :
    let r = route numbered_queues lasting_table (request_for get channel_name) posted in
    IsAnswered numbered_queues lasting_table get 2 posted r
    × ((r.1.channels 2).header_chunk ≡ (posted.channels 2).header_chunk)
route-live_example =
    route-live numbered_queues lasting_table get channel_name 2 posted (λ e. cc) posted-IsRunning
      posted_lives refl

route-vacant_example :
    let r = route numbered_queues lasting_table (request_for put other_name) posted in
    IsAnswered numbered_queues lasting_table put 5 posted r × ((r.1.channels 5).header_chunk ≡ none)
route-vacant_example =
    route-vacant numbered_queues lasting_table put other_name posted (λ e. cc) posted-IsRunning
      posted-IsVacant

abbrev unnamed_request : Request
unnamed_request = record { method = get; path = channel_name ∷ [] }

serve_all-IsRunning_example : IsRunning numbered_queues lasting_table (
    serve_all numbered_queues lasting_table posts
      (new_server numbered_queues lasting_table no_queues))
serve_all-IsRunning_example = serve_all-IsRunning numbered_queues lasting_table no_queues posts

-- A client that reads, among other requests, chunks and clients.
abbrev later : List (ServerEvent numbered_queues lasting_table)
later =
    reads 0
    ∷ requests (request_for put (1 ∷ []))
    ∷ transmits 2 (headers (7 ∷ []))
    ∷ transmits 2 empty
    ∷ transmits 5 (headers (9 ∷ []))
    ∷ requests (request_for get channel_name)
    ∷ departs 1
    ∷ reads 0
    ∷ []

get_in_order_example :
    let s' = (route numbered_queues lasting_table (request_for get channel_name) posted).1 in
    headers (7 ∷ []) ∷ empty ∷ []
    ≡ read numbered_queues lasting_table 0 2 later s'
      ++ (serve_all numbered_queues lasting_table later s').queues.queue 0
unfolding is_alive transmits_to listens_to serve_all serve route or_else filtered head_found
    get_found post_found channel_filter locate inserted new_server with_world drop_first without
    channel_of listened polled left send perform new_channel remember retain queue_header join
    new_listener poll_listener drop_listener
get_in_order_example =
    get_in_order numbered_queues lasting_table channel_name posted later 2 0 posted-IsRunning
      (route-live_example.0.2)
      (tt, (tt, (tt, (tt, (tt, (tt, ((λ e. omega (arith, e)), (tt, tt)))))))) (inl refl)
