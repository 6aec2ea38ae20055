-- ===== src/Mpsc/Reference.antt =====
-- Queues by number: an instance of the parameter Mpsc.
use webmetro.Base.{
  set, set_same, set_other, Poll, ready, pending, Option, some, ap, ◌∙◌, ℕ, suc, ◌-◌, ◌<◌, ◌≡◌, ◌≢◌,
  refl, arith, Bool, true, false, List, [], ◌∷◌, ◌++◌, ltb, ◌==◌, if◌then◌else◌, lt→ltb, ==_iff,
  Bool-cases, inl, inr,
}
use webmetro.Chunk.{Chunk}
use webmetro.Mpsc.{Mpsc}

pub record Store : Type 0 where
  pub count : ℕ
  pub queue : ℕ → List Chunk
  pub space : ℕ → ℕ

abbrev pub make : ℕ → Store → ℕ × Store
make n q = (
  q.count,
  record {
    count = suc q.count;
    queue = set q.count [] q.queue;
    space = set q.count (suc n) q.space;
  },
)

abbrev pub push : ℕ → Chunk → Store → Bool × Store
push s c q =
    if ltb 0 (q.space s)
    then (
      true,
      record q {
        queue = set s (q.queue s ++ (c ∷ [])) q.queue;
        space = set s (q.space s - 1) q.space;
      },
    )
    else (false, q)

pub push_sent :
    (s : ℕ) (c : Chunk) (q : Store)
    → 0 < q.space s
    → push s c q ≡ (
      true,
      record q {
        queue = set s (q.queue s ++ (c ∷ [])) q.queue;
        space = set s (q.space s - 1) q.space;
      },
    )
push_sent s c q h = rw (lt→ltb 0 (q.space s) h)

pub room_sent_lem :
    (s : ℕ) (c : Chunk) (q : Store) → 0 < q.space s → suc ((push s c q).1.space s) ≡ q.space s
room_sent_lem s c q h =
    let e = set_same s (q.space s - 1) q.space in rw (push_sent s c q h, e) (omega arith)

pub push_other :
    (s t : ℕ) (c : Chunk) (q : Store)
    → t ≢ s
    → ((push s c q).1.queue t ≡ q.queue t) × ((push s c q).1.space t ≡ q.space t)
push_other s t c q other = elim (Bool-cases (ltb 0 (q.space s))) [
  | inl e ↦ rw e (
    set_other s t (q.queue s ++ (c ∷ [])) q.queue other,
    set_other s t (q.space s - 1) q.space other,
  )
  | inr e ↦ rw e (refl, refl)
]

abbrev pub pull : ℕ → Store → List Chunk → Poll (Option Chunk) × Store
pull s q [] = (pending, q)
pull s q (c ∷ cs) =
    (ready (some c), record q { queue = set s cs q.queue; space = set s (suc (q.space s)) q.space })

pub pull_other :
    (s t : ℕ) (q : Store) (cs : List Chunk) → t ≢ s → (pull s q cs).1.queue t ≡ q.queue t
pull_other s t q [] other = refl
pull_other s t q (c ∷ cs) other = set_other s t cs q.queue other

pub pull_count : (s : ℕ) (q : Store) (cs : List Chunk) → (pull s q cs).1.count ≡ q.count
pull_count s q [] = refl
pull_count s q (c ∷ cs) = refl

pub push_count : (s : ℕ) (c : Chunk) (q : Store) → (push s c q).1.count ≡ q.count
push_count s c q = elim (Bool-cases (ltb 0 (q.space s))) [ inl e ↦ rw e refl | inr e ↦ rw e refl ]

pub pull_queue :
    (s : ℕ) (c : Chunk) (cs : List Chunk) (q : Store)
    → q.queue s ≡ c ∷ cs
    → pull s q (q.queue s) ≡ pull s q (c ∷ cs)
pull_queue s c cs q e = ap (pull s q) e

pub pull_idle :
    (s : ℕ) (c : Chunk) (q : Store) (cs : List Chunk) → cs ≡ [] → (pull s q cs).0 ≢ ready (some c)
pull_idle s c q [] h e = cc
pull_idle s c q (d ∷ cs) h e = cc

abbrev pub numbered_queues : Mpsc
numbered_queues = record {
  Sender = ℕ;
  Queues = Store;
  mpsc_channel = make;
  start_send = push;
  drop_sender = λ s q. q;
  queued = λ s q. q.queue s;
  room = λ s q. q.space s;
  IsMade = λ s q. s < q.count;
  made_new = λ n q. omega arith;
  queued_new = λ n q. set_same q.count [] q.queue;
  room_new = λ n q. set_same q.count (suc n) q.space;
  fresh = λ n q s made e. omega (arith, made, e);
  sent = λ s c q h. rw (lt→ltb 0 (q.space s) h);
  queued_sent = λ s c q h. rw (lt→ltb 0 (q.space s) h) (set_same s (q.queue s ++ (c ∷ [])) q.queue);
  room_sent = λ s c q h. room_sent_lem s c q h;
  refused = λ s c q h. rw h;
  queued_refused = λ s c q h. rw h;
  queued_dropped = λ s t q. refl;
  queued_other = λ s t c q h. (push_other s t c q h).0;
  room_other = λ s t c q h. (push_other s t c q h).1;
  room_dropped = λ s t q h. refl;
  receive = λ s q. pull s q (q.queue s);
  drop_receiver = λ s q. record q { queue = set s [] q.queue; space = set s 0 q.space };
  queued_made = λ n t q made. set_other q.count t [] q.queue (λ e. omega (arith, made, e));
  received = λ s c cs q e. ap (λ r. r.0) (pull_queue s c cs q e);
  queued_received =
      λ s c cs q e. ap (λ r. r.1.queue s) (pull_queue s c cs q e) ∙ set_same s cs q.queue;
  room_received = λ s c cs q e.
      ap (λ r. r.1.space s) (pull_queue s c cs q e) ∙ set_same s (suc (q.space s)) q.space;
  idle = λ s c q e. pull_idle s c q (q.queue s) e;
  queued_idle = λ s q e. ap (λ cs. (pull s q cs).1.queue s) e ∙ e;
  queued_received_other = λ s t q other. pull_other s t q (q.queue s) other;
  queued_left_other = λ s t q other. set_other s t [] q.queue other;
  room_left = λ s q. set_same s 0 q.space;
  made_channel = λ n t q made. omega (arith, made);
  made_sent = λ s t c q made. omega (arith, made, push_count s c q);
  made_dropped = λ s t q made. made;
  made_received = λ s t q made. omega (arith, made, pull_count s q (q.queue s));
  made_left = λ s t q made. made;
  same_receiver = λ s t. s == t;
  same_receiver_iff = ==_iff;
}
