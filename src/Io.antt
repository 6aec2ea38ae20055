-- ===== src/Io.antt =====
-- std::io as src/ebml.rs, src/webm.rs and src/chunk.rs use it: `Write` and `Seek` on a
-- `Cursor`, over a growable `Vec<u8>` or over a fixed byte array.
pub mod Append
use webmetro.Base.{
  ℕ, ◌+◌, ◌-◌, ◌≤◌, ◌≡◌, refl, Bool, true, false, List, [], ◌∷◌, ◌++◌, length, take, drop,
  replicate, leb, if◌then◌else◌, Result, ok, err,
}

-- The errors that the encoders raise: `ErrorKind::InvalidInput`, which always carries
-- `WriteError::OutOfRange`, and `ErrorKind::WriteZero`, which `write_all` gives on a full array.
pub data IoError : Type 0 where
  out_of_range write_zero : IoError

-- `bytes` is the whole vector or array, whatever the position; a `fixed` one does not grow.
pub record Cursor : Type 0 where
  pub bytes : List ℕ
  pub position : ℕ
  pub fixed : Bool

-- An `io::Result<()>` that writes through `&mut T`: what was written stays written after an error.
abbrev pub IoResult : Type 0 → Type 0
IoResult A = Cursor → Result IoError A × Cursor

module _ {A : Type 0} where
  abbrev pub pure : A → IoResult A
  pure a c = (ok a, c)

  abbrev pub raise : IoError → IoResult A
  raise e c = (err e, c)

-- The `?` of Rust.
abbrev pub and_then :
    {A B : Type 0} → Result IoError A × Cursor → (A → IoResult B) → Result IoError B × Cursor
and_then (ok a, c) f = f a c
and_then (err e, c) f = raise e c

infixl 5 ◌>>=◌ ◌>>◌
abbrev pub ◌>>=◌ : {A B : Type 0} → IoResult A → (A → IoResult B) → IoResult B
◌>>=◌ m f c = and_then (m c) f

abbrev pub ◌>>◌ : {A B : Type 0} → IoResult A → IoResult B → IoResult B
m >> k = m >>= λ _. k

-- A step that succeeds hands its result and its writer on.
pub >>=-ok :
    {A B : Type 0} (m : IoResult A) (f : A → IoResult B) {a : A} {c c' : Cursor}
    → m c ≡ (ok a, c')
    → (m >>= f) c ≡ f a c'
>>=-ok m f e = rw e

pub >>-ok :
    {A B : Type 0} (m : IoResult A) (k : IoResult B) {a : A} {c c' : Cursor}
    → m c ≡ (ok a, c')
    → (m >> k) c ≡ k c'
>>-ok m k e = >>=-ok m (λ _. k) e

-- `Cursor::new(Vec::new())`, and a cursor at the start of a zeroed array of `n` bytes.
abbrev pub new_vec : Cursor
new_vec = record { bytes = []; position = 0; fixed = false }

abbrev pub new_array : ℕ → Cursor
new_array n = record { bytes = replicate n 0; position = 0; fixed = true }

-- The bytes of a vector after a write of `bs` at `at`: overwritten, extended at the end, and
-- filled with zeros if `at` lies behind the end.
unfoldable pub overwrite : List ℕ → ℕ → List ℕ → List ℕ
overwrite old at bs =
    take at (old ++ replicate (at - length old) 0) ++ bs ++ drop (at + length bs) old

-- `write_all`. An array takes what fits, and then the write fails.
unfoldable pub write_all : List ℕ → IoResult (Unit {0})
write_all bs c =
    let room : ℕ = length c.bytes - c.position in
    let fits : Bool = leb (length bs) room in
    let part : List ℕ = take room bs in
    if c.fixed
    then (if fits
        then (
          ok tt,
          record c { bytes = overwrite c.bytes c.position bs; position = c.position + length bs },
        )
        else (
          err write_zero,
          record c {
            bytes = overwrite c.bytes c.position part;
            position = c.position + length part;
          },
        ))
    else (
      ok tt,
      record c { bytes = overwrite c.bytes c.position bs; position = c.position + length bs },
    )

-- `seek(SeekFrom::Current(0))`, which tells the position, and `seek(SeekFrom::Start(n))`.
unfoldable pub tell : IoResult ℕ
tell c = (ok c.position, c)

unfoldable pub seek_start : ℕ → IoResult (Unit {0})
seek_start n c = (ok tt, record c { position = n })
