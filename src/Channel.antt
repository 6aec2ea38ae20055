-- ===== src/Channel.antt =====
-- src/channel.rs: a channel, its transmitters and its listeners.
pub mod Delivery
pub mod Sound
pub mod Session
pub mod InOrder
pub mod Others
pub mod Tests
use webmetro.Base.{
  Poll, ℕ, Bool, true, false, Option, none, some, List, [], ◌∷◌, ◌++◌, if◌then◌else◌,
}
use webmetro.Chunk.{Chunk, headers}
use webmetro.Mpsc.{Mpsc}

module _ (mpsc : Mpsc) where
  open mpsc use {Sender, Queues, mpsc_channel, start_send, drop_sender, receive, drop_receiver}

  -- The channel behind the mutex of a `Handle`; `name` is for the log only.
  pub record Channel : Type 0 where
    pub name : List ℕ
    pub header_chunk : Option Chunk
    pub listeners : List Sender

  -- `Channel::new`
  unfoldable pub new_channel : List ℕ → Channel
  new_channel name = record { name = name; header_chunk = none; listeners = [] }

  unfoldable pub remember : Chunk → Option Chunk → Option Chunk
  remember (headers bytes) old = some (headers bytes)
  remember _ old = old

  -- `retain_mut`, in the order of the listeners: one that does not take the chunk is dropped.
  unfoldable pub retain : Chunk → List Sender → Queues → List Sender × Queues
  retain chunk [] q = ([], q)
  retain chunk (s ∷ ss) q =
      let (taken, q') = start_send s chunk q in
      let kept = retain chunk ss q' in
      let dropped = retain chunk ss (drop_sender s q') in
      if taken then (s ∷ kept.0, kept.1) else dropped

  -- `Transmitter::send`
  unfoldable pub send : Chunk → Channel × Queues → Channel × Queues
  send chunk (c, q) =
      let (listeners, q') = retain chunk c.listeners q in
      (record c { header_chunk = remember chunk c.header_chunk; listeners = listeners }, q')

  -- `Drop` of a transmitter.
  unfoldable pub drop_transmitter : Channel × Queues → Channel × Queues
  drop_transmitter (c, q) = (record c { header_chunk = none }, q)

  -- The stored header is queued first; `none` where `expect` would panic.
  unfoldable pub queue_header : Option Chunk → Sender → Queues → Option Queues
  queue_header none s q = some q
  queue_header (some chunk) s q =
      let (taken, q') = start_send s chunk q in if taken then some q' else none

  unfoldable pub join : Sender → Channel → Option Queues → Option (Sender × (Channel × Queues))
  join s c none = none
  join s c (some q) = some (s, (record c { listeners = c.listeners ++ (s ∷ []) }, q))

  -- `Listener::new`, with the listener known by its sender's queue.
  unfoldable pub new_listener : Channel × Queues → Option (Sender × (Channel × Queues))
  new_listener (c, q) =
      let (s, q') = mpsc_channel 5 q in join s c (queue_header c.header_chunk s q')

  -- `poll_next` of a listener, and the drop of one: its sender stays with the channel.
  unfoldable pub poll_listener :
      Sender → Channel × Queues → Poll (Option Chunk) × (Channel × Queues)
  poll_listener s (c, q) = let (answer, q') = receive s q in (answer, (c, q'))

  unfoldable pub drop_listener : Sender → Channel × Queues → Channel × Queues
  drop_listener s (c, q) = (c, drop_receiver s q)
