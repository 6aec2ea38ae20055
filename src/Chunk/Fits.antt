-- ===== src/Chunk/Fits.antt =====
-- Documents whose chunks stay below the soft limit of the chunker.
use webmetro.StreamParser.Feed.{HasRoom, HasRoom-mono}
use webmetro.Base.{
  false, arith, length, length-append, ◌≡◌, lt→leb, ℕ, ◌≡◌, refl, Option, none, some, List, [], ◌∷◌,
  ◌++◌, All,
}
use webmetro.Io.Append.{at_end}
use webmetro.Webm.{WebmElement}
use webmetro.Webm.Write.{webm_bytes}
use webmetro.Webm.Stream.{written}
use webmetro.Chunk.Documents.{body_bytes, Document}
use webmetro.Chunk.Chunker.{is_full}

-- A buffer that stays below the limit.
pub is_full-HasRoom :
    (limit : Option ℕ) (bs : List ℕ) → HasRoom limit (length bs) → is_full limit (at_end bs) ≡ false
unfolding is_full
is_full-HasRoom none bs room = refl
is_full-HasRoom (some limit) bs room = lt→leb limit (length bs) room

pub HasRoom-append :
    (limit : Option ℕ) (bs more : List ℕ)
    → HasRoom limit (length (bs ++ more))
    → HasRoom limit (length bs)
HasRoom-append limit bs more room =
    HasRoom-mono limit (length bs) (length (bs ++ more)) (omega (arith, length-append bs more)) room

-- A document whose header and clusters stay below the limit.
pub record FitsIn (limit : Option ℕ) (d : Document) : Type 0 where
  pub header_fits : HasRoom limit (length (webm_bytes d.opening ++ written d.header))
  pub first_fits : HasRoom limit (length (body_bytes d.first))
  pub others_fit : All (λ body. HasRoom limit (length (body_bytes body))) d.others

pub HasRoom-zero : (limit : Option ℕ) (n : ℕ) → HasRoom limit n → HasRoom limit 0
HasRoom-zero limit n room = HasRoom-mono limit 0 n (omega arith) room

-- Without a limit every document fits.
bodies_fit :
    (bodies : List (List WebmElement))
    → All (λ body. HasRoom none (length (body_bytes body))) bodies
bodies_fit [] = tt
bodies_fit (body ∷ bodies) = (tt, bodies_fit bodies)

pub FitsIn-none : (ds : List Document) → All (FitsIn none) ds
FitsIn-none [] = tt
FitsIn-none (d ∷ ds) =
    (record { header_fits = tt; first_fits = tt; others_fit = bodies_fit d.others }, FitsIn-none ds)
