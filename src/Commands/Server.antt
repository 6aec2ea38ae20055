-- ===== src/Commands/Server.antt =====
-- src/commands/relay.rs, `run` and what its routes do: the channels of the server, the strong pointers to them
-- that its connections hold, and the map of names. A request is answered in one step, and after
-- that its body is a connection, which is polled, and then dropped. `warp` matches the
-- path and the method, in the order of the filters.
pub mod Locate
pub mod Running
pub mod Quiet
pub mod Route
pub mod Served
pub mod Viewer
pub mod Lookup
pub mod Vacant
pub mod Relayed
pub mod Tests
use Prim.Native.String.{String}
use webmetro.Base.{
  ℕ, suc, Bool, true, false, ◌||◌, ◌==◌, if◌then◌else◌, Option, none, some, List, [], ◌∷◌,
  same_bytes, set, Result, ok, err, Poll, ready, pending,
}
use webmetro.Error.{WebmetroError, application_error}
use webmetro.Mpsc.{Mpsc}
use webmetro.WeakTable.{WeakTable}
use webmetro.Chunk.{Chunk}
use webmetro.Channel.{
  Channel, new_channel, send, drop_transmitter, new_listener, poll_listener, drop_listener,
}

pub data Method : Type 0 where
  head get post put other_method : Method

pub record Request : Type 0 where
  pub method : Method
  pub path : List (List ℕ)

pub data Header : Type 0 where
  content_type x_accel_buffering cache_control : String → Header

-- The segment `live` of the path.
abbrev pub live : List ℕ
live = b'l' ∷ b'i' ∷ b'v' ∷ b'e' ∷ []

-- The transmitters that there are, by their channels.
unfoldable pub transmits_to : ℕ → List ℕ → Bool
transmits_to h [] = false
transmits_to h (k ∷ ks) = (k == h) || transmits_to h ks

unfoldable pub drop_first : ℕ → List ℕ → List ℕ
drop_first h [] = []
drop_first h (k ∷ ks) = let rest = drop_first h ks in if k == h then ks else k ∷ rest

module _ (mpsc : Mpsc) (weak : WeakTable) where
  open mpsc use {Sender, Queues, same_receiver}
  open weak use {Table, new_table, or_insert_with}

  -- A body is nothing, the stream of `get_stream` behind a listener, or that of `post_stream` in front
  -- of a transmitter to a channel.
  pub data Body : Type 0 where
    empty_body : Body
    listening : Sender → Body
    relaying : ℕ → Body

  pub record Response : Type 0 where
    pub headers : List Header
    pub body : Body

  -- `channels` is the memory behind the pointers, of which `next` have been made.
  pub record Server : Type 0 where
    pub table : Table
    pub channels : ℕ → Channel mpsc
    pub next : ℕ
    pub queues : Queues
    pub transmitters : List ℕ
    pub listeners : List (ℕ × Sender)

  -- `run`, before the first request.
  unfoldable pub new_server : Queues → Server
  new_server queues = record {
    table = new_table;
    channels = λ h. new_channel mpsc [];
    next = 0;
    queues = queues;
    transmitters = [];
    listeners = [];
  }

  unfoldable pub listens_to : ℕ → List (ℕ × Sender) → Bool
  listens_to h [] = false
  listens_to h ((k, t) ∷ ls) = (k == h) || listens_to h ls

  -- Whether a connection holds a strong pointer to the channel.
  unfoldable pub is_alive : Server → ℕ → Bool
  is_alive s h = transmits_to h s.transmitters || listens_to h s.listeners

  -- The new channel of `or_insert_with`, if it has been made.
  unfoldable pub inserted : List ℕ → ℕ → Server → Server
  inserted name h s =
      if h == s.next
      then record s { channels = set h (new_channel mpsc name) s.channels; next = suc h }
      else s

  -- The closure of the filter `channel`.
  unfoldable pub locate : List ℕ → Server → ℕ × Server
  locate name s =
      let (h, table) = or_insert_with (is_alive s) name s.next s.table in
      (h, inserted name h (record s { table = table }))

  -- `path!("live" / String)`, which takes no empty name, mapped with the closure.
  unfoldable pub channel_filter : List (List ℕ) → Server → Option ℕ × Server
  channel_filter (segment ∷ [] ∷ []) s = (none, s)
  channel_filter (segment ∷ (b ∷ bs) ∷ []) s =
      if same_bytes segment live
      then (let (h, s') = locate (b ∷ bs) s in (some h, s'))
      else (none, s)
  channel_filter path s = (none, s)

  unfoldable pub media_response : Body → Response
  media_response body = record {
    headers =
        content_type "video/webm"
        ∷ x_accel_buffering "no"
        ∷ cache_control "no-cache, no-store"
        ∷ [];
    body = body;
  }

  -- The channel `h` with the queues, and after a change of them.
  abbrev pub world : ℕ → Server → Channel mpsc × Queues
  world h s = (s.channels h, s.queues)

  unfoldable pub with_world : ℕ → Channel mpsc × Queues → Server → Server
  with_world h (c, q) s = record s { channels = set h c s.channels; queues = q }

  -- What a route gives: an answer, or none when its filters reject the request.
  abbrev pub Routed : Type 0
  Routed = Option Response × Server

  unfoldable pub head_found : Method → Option ℕ → Server → Routed
  head_found head (some h) s = (some (media_response empty_body), s)
  head_found method found s = (none, s)

  -- `Listener::new` in `get_stream`; where it panics there is no answer.
  unfoldable pub listened : ℕ → Option (Sender × (Channel mpsc × Queues)) → Server → Routed
  listened h none s = (none, s)
  listened h (some (t, w)) s = (
    some (media_response (listening t)),
    record (with_world h w s) { listeners = (h, t) ∷ s.listeners },
  )

  unfoldable pub get_found : Method → Option ℕ → Server → Routed
  get_found get (some h) s = listened h (new_listener mpsc (world h s)) s
  get_found method found s = (none, s)

  unfoldable pub post_found : Method → Option ℕ → Server → Routed
  post_found post (some h) s = (
    some (record { headers = []; body = relaying h }),
    record s { transmitters = h ∷ s.transmitters },
  )
  post_found put (some h) s = (
    some (record { headers = []; body = relaying h }),
    record s { transmitters = h ∷ s.transmitters },
  )
  post_found method found s = (none, s)

  -- A route: the filter `channel`, whatever the method, and then the method.
  unfoldable pub filtered : (Method → Option ℕ → Server → Routed) → Request → Server → Routed
  filtered found r s = let (h, s') = channel_filter r.path s in found r.method h s'

  -- `or` of two filters
  unfoldable pub or_else : Routed → (Server → Routed) → Routed
  or_else (some answer, s) next = (some answer, s)
  or_else (none, s) next = next s

  -- `routes`
  unfoldable pub route : Request → Server → Routed
  route r s =
      or_else (or_else (filtered head_found r s) (filtered get_found r)) (filtered post_found r)

  -- What can happen to the server: a request, a chunk in the stream of a transmitter, its end, a poll
  -- of a listener's client, and its end.
  pub data ServerEvent : Type 0 where
    requests : Request → ServerEvent
    transmits : ℕ → Chunk → ServerEvent
    hangs_up : ℕ → ServerEvent
    reads : Sender → ServerEvent
    departs : Sender → ServerEvent

  unfoldable pub channel_of : Sender → List (ℕ × Sender) → Option ℕ
  channel_of t [] = none
  channel_of t ((h, u) ∷ ls) =
      let rest = channel_of t ls in if same_receiver u t then some h else rest

  unfoldable pub without : Sender → List (ℕ × Sender) → List (ℕ × Sender)
  without t [] = []
  without t ((h, u) ∷ ls) =
      let rest = without t ls in if same_receiver u t then rest else (h, u) ∷ rest

  unfoldable pub polled : Sender → Option ℕ → Server → Server
  polled t none s = s
  polled t (some h) s = with_world h (poll_listener mpsc t (world h s)).1 s

  unfoldable pub left : Sender → Option ℕ → Server → Server
  left t none s = s
  left t (some h) s = record (with_world h (drop_listener mpsc t (world h s)) s) {
    listeners = without t s.listeners;
  }

  unfoldable pub serve : ServerEvent → Server → Server
  serve (requests r) s = (route r s).1
  serve (transmits h chunk) s =
      if transmits_to h s.transmitters then with_world h (send mpsc chunk (world h s)) s else s
  serve (hangs_up h) s =
      if transmits_to h s.transmitters
      then record (with_world h (drop_transmitter mpsc (world h s)) s) {
        transmitters = drop_first h s.transmitters;
      }
      else s
  serve (reads t) s = polled t (channel_of t s.listeners) s
  serve (departs t) s = left t (channel_of t s.listeners) s

  unfoldable pub serve_all : List ServerEvent → Server → Server
  serve_all [] s = s
  serve_all (e ∷ es) s = serve_all es (serve e s)
