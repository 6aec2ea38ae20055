-- ===== src/Mpsc.antt =====
-- What src/channel.rs uses of the bounded channels of the crate `futures`. The crate is a parameter:
-- the state of all the queues, its operations, and their documented effect.
pub mod Reference
use webmetro.Base.{
  Poll, ready, Option, some, ◌↔◌, ℕ, suc, ◌<◌, ◌≤◌, ◌≡◌, ◌≢◌, Bool, true, false, List, [], ◌∷◌,
  ◌++◌,
}
use webmetro.Chunk.{Chunk}

-- `queued` and `room` are what a sender's queue holds and how many chunks more it takes; the queue of
-- a receiver that is gone takes none. `start_send` tells whether it succeeded.
pub record Mpsc : Type 1 where
  pub Sender : Type 0
  pub Queues : Type 0
  pub mpsc_channel : ℕ → Queues → Sender × Queues
  pub start_send : Sender → Chunk → Queues → Bool × Queues
  pub drop_sender : Sender → Queues → Queues
  pub receive : Sender → Queues → Poll (Option Chunk) × Queues
  pub drop_receiver : Sender → Queues → Queues
  pub queued : Sender → Queues → List Chunk
  pub room : Sender → Queues → ℕ
  pub IsMade : Sender → Queues → Type 0
  -- A new queue is empty, and takes its size and one more for its sender.
  pub made_new : (n : ℕ) (q : Queues) → IsMade (mpsc_channel n q).0 (mpsc_channel n q).1
  pub queued_new : (n : ℕ) (q : Queues) → queued (mpsc_channel n q).0 (mpsc_channel n q).1 ≡ []
  pub room_new : (n : ℕ) (q : Queues) → room (mpsc_channel n q).0 (mpsc_channel n q).1 ≡ suc n
  pub fresh : (n : ℕ) (q : Queues) (s : Sender) → IsMade s q → s ≢ (mpsc_channel n q).0
  -- A chunk goes to the end of the queue if there is room.
  pub sent : (s : Sender) (c : Chunk) (q : Queues) → 0 < room s q → (start_send s c q).0 ≡ true
  pub queued_sent :
      (s : Sender) (c : Chunk) (q : Queues)
      → 0 < room s q
      → queued s (start_send s c q).1 ≡ queued s q ++ (c ∷ [])
  pub room_sent :
      (s : Sender) (c : Chunk) (q : Queues)
      → 0 < room s q
      → suc (room s (start_send s c q).1) ≡ room s q
  pub refused : (s : Sender) (c : Chunk) (q : Queues) → room s q ≡ 0 → (start_send s c q).0 ≡ false
  pub queued_refused :
      (s : Sender) (c : Chunk) (q : Queues)
      → room s q ≡ 0
      → queued s (start_send s c q).1 ≡ queued s q
  -- What has been queued can be received after the sender is dropped.
  pub queued_dropped : (s t : Sender) (q : Queues) → queued t (drop_sender s q) ≡ queued t q
  -- No operation touches the queue of another sender.
  pub queued_other :
      (s t : Sender) (c : Chunk) (q : Queues) → t ≢ s → queued t (start_send s c q).1 ≡ queued t q
  pub room_other :
      (s t : Sender) (c : Chunk) (q : Queues) → t ≢ s → room t (start_send s c q).1 ≡ room t q
  pub room_dropped : (s t : Sender) (q : Queues) → t ≢ s → room t (drop_sender s q) ≡ room t q
  pub queued_made :
      (n : ℕ) (t : Sender) (q : Queues) → IsMade t q → queued t (mpsc_channel n q).1 ≡ queued t q
  -- A receiver takes the front of its queue, and so makes room; from an empty queue it takes nothing.
  pub received :
      (s : Sender) (c : Chunk) (cs : List Chunk) (q : Queues)
      → queued s q ≡ c ∷ cs
      → (receive s q).0 ≡ ready (some c)
  pub queued_received :
      (s : Sender) (c : Chunk) (cs : List Chunk) (q : Queues)
      → queued s q ≡ c ∷ cs
      → queued s (receive s q).1 ≡ cs
  pub room_received :
      (s : Sender) (c : Chunk) (cs : List Chunk) (q : Queues)
      → queued s q ≡ c ∷ cs
      → room s (receive s q).1 ≡ suc (room s q)
  pub idle :
      (s : Sender) (c : Chunk) (q : Queues) → queued s q ≡ [] → (receive s q).0 ≢ ready (some c)
  pub queued_idle : (s : Sender) (q : Queues) → queued s q ≡ [] → queued s (receive s q).1 ≡ []
  pub queued_received_other :
      (s t : Sender) (q : Queues) → t ≢ s → queued t (receive s q).1 ≡ queued t q
  pub queued_left_other :
      (s t : Sender) (q : Queues) → t ≢ s → queued t (drop_receiver s q) ≡ queued t q
  pub room_left : (s : Sender) (q : Queues) → room s (drop_receiver s q) ≡ 0
  -- A sender stays made, and two of them can be told apart.
  pub made_channel : (n : ℕ) (t : Sender) (q : Queues) → IsMade t q → IsMade t (mpsc_channel n q).1
  pub made_sent :
      (s t : Sender) (c : Chunk) (q : Queues) → IsMade t q → IsMade t (start_send s c q).1
  pub made_dropped : (s t : Sender) (q : Queues) → IsMade t q → IsMade t (drop_sender s q)
  pub made_received : (s t : Sender) (q : Queues) → IsMade t q → IsMade t (receive s q).1
  pub made_left : (s t : Sender) (q : Queues) → IsMade t q → IsMade t (drop_receiver s q)
  pub same_receiver : Sender → Sender → Bool
  pub same_receiver_iff : (s t : Sender) → (same_receiver s t ≡ true) ↔ (s ≡ t)
