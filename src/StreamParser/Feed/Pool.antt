-- ===== src/StreamParser/Feed/Pool.antt =====
-- Feeds: what a stream brings, and what a parser still has to read.
use webmetro.Base.{
  Option, some, false, refl, lt→leb, ℕ, ◌+◌, ◌≤◌, ◌<◌, ◌≡◌, arith, none, List, [], ◌∷◌, ◌++◌,
  length, All, All-append,
}
use webmetro.Ebml.Varint.Decode.{IsByte}
use webmetro.StreamParser.{Arrival, later, chunk, failed, EbmlStreamingParser, over_limit}

-- The bytes that are still to come.
abbrev pub content : List Arrival → List ℕ
content [] = []
content (chunk buf ∷ s) = buf ++ content s
content (_ ∷ s) = content s

-- A stream that brings bytes, in any pieces and with any waits, and no error.
abbrev pub IsFeed : List Arrival → Type 0
IsFeed [] = Unit
IsFeed (later ∷ s) = IsFeed s
IsFeed (chunk buf ∷ s) = All IsByte buf × IsFeed s
IsFeed (failed e ∷ s) = ⊥

-- All the bytes that the parser has or will get.
abbrev pub pool : EbmlStreamingParser → List ℕ
pool p = p.buffer ++ content p.stream

-- What is left to do: bytes not yet taken, and polls that the stream has not yet answered.
abbrev pub work : EbmlStreamingParser → ℕ
work p = length (pool p) + length p.stream

-- Whether a soft limit, if there is one, is more than `n`.
abbrev pub HasRoom : Option ℕ → ℕ → Type 0
HasRoom none n = Unit
HasRoom (some limit) n = n < limit

pub HasRoom-mono : (limit : Option ℕ) (m n : ℕ) → m ≤ n → HasRoom limit n → HasRoom limit m
HasRoom-mono none m n le room = tt
HasRoom-mono (some limit) m n le room = omega arith

pub over_limit-HasRoom :
    (limit : Option ℕ) (buffer : List ℕ)
    → HasRoom limit (length buffer)
    → over_limit limit buffer ≡ false
unfolding over_limit
over_limit-HasRoom none buffer room = refl
over_limit-HasRoom (some limit) buffer room = lt→leb limit (length buffer) room

-- A parser that goes on: no limit that can strike, bytes only, `whole` still to be read, and less work than `bound`.
pub record IsOn (whole : List ℕ) (bound : ℕ) (p : EbmlStreamingParser) : Type 0 where
  pub roomy : HasRoom p.buffer_size_limit (length (pool p))
  pub buffered : All IsByte p.buffer
  pub fed : IsFeed p.stream
  pub pool_is : pool p ≡ whole
  pub smaller : work p < bound

pub content-IsByte : (s : List Arrival) → IsFeed s → All IsByte (content s)
content-IsByte [] h = tt
content-IsByte (later ∷ s) h = content-IsByte s h
content-IsByte (chunk buf ∷ s) h = All-append IsByte buf (content s) h.0 (content-IsByte s h.1)
content-IsByte (failed e ∷ s) h = elim h [ ]

pub IsOn-mono :
    (whole : List ℕ) (a b : ℕ) (p : EbmlStreamingParser) → a ≤ b → IsOn whole a p → IsOn whole b p
IsOn-mono whole a b p le h = record {
  roomy = h.roomy;
  buffered = h.buffered;
  fed = h.fed;
  pool_is = h.pool_is;
  smaller = omega (arith, h.smaller);
}
