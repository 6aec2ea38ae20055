-- ===== src/Ebml/Varint/Decode.antt =====
-- `decode_varint` against a reading of the format in plain arithmetic.
use webmetro.Base.{
  ℕ, zero, suc, ◌+◌, ◌-◌, ◌*◌, ◌%◌, ◌^◌, ◌≤◌, ◌<◌, ◌≡◌, refl, ap, arith, Option, none, some, List,
  [], ◌∷◌, length, take, All, ltb, ◌==◌, if◌then◌else◌, Result, ok, err, length-take,
}
use webmetro.Base.BigEndian.{be_value, pow_256_pos}
use webmetro.Ebml.Varint.{
  EbmlError, corrupt_varint, Varint, value, unknown, value_loop, finish_varint, decode_varint,
}
use webmetro.Ebml.Varint.Marker.{marker_loop-marker_of}
use native.Mathlib.Nat.{pow-suc}

abbrev pub IsByte : ℕ → Type 0
IsByte b = b < 256

-- The number of bytes that the first byte announces; 9 if it announces none.
abbrev pub size_of : ℕ → ℕ
size_of b =
    if ltb 127 b
    then 1
    else if ltb 63 b
    then 2
    else if ltb 31 b
    then 3
    else if ltb 15 b
    then 4
    else if ltb 7 b
    then 5
    else if ltb 3 b
    then 6
    else if ltb 1 b
    then 7
    else if ltb 0 b
    then 8
    else 9

-- `whole` is the number that all the bytes spell: the marker bit is worth 128 ^ n, and all bits
-- below it set mean "unknown".
abbrev pub read_number : ℕ → ℕ → Varint
read_number n whole = if whole == 2 * 128 ^ n - 1 then unknown else value (whole - 128 ^ n)

abbrev pub read_varint : List ℕ → Result EbmlError (Option (Varint × ℕ))
read_varint [] = ok none
read_varint (b ∷ bs) =
    let n = size_of b in
    if n == 9
    then err corrupt_varint
    else if ltb (length (b ∷ bs)) n
    then ok none
    else ok (some (read_number n (be_value (take n (b ∷ bs))), n))

room_now : (v p : ℕ) → 0 < p → (v + 1) * (p * 256) ≤ 2 ^ 63 → (v + 1) * 256 ≤ 2 ^ 63
room_now v p h k = grind arith

room_later : (v b p : ℕ) → b < 256 → (v + 1) * (p * 256) ≤ 2 ^ 63 → (v * 256 + b + 1) * p ≤ 2 ^ 63
room_later v b p h k =
    let digits : (v * 256 + b + 1) * p ≤ (v + 1) * 256 * p = grind arith in omega arith

shift_in :
    (v b : ℕ) → b < 256 → (v + 1) * 256 ≤ 2 ^ 63 → (v * 2 ^ 8 % 2 ^ 64 + b) % 2 ^ 64 ≡ v * 256 + b
shift_in v b h k = omega arith

-- While the accumulators have room for what is still to come, nothing wraps.
value_loop-be_value :
    (k : ℕ) (bs : List ℕ) (v m : ℕ)
    → All IsByte bs
    → k ≤ length bs
    → (v + 1) * 256 ^ k ≤ 2 ^ 63
    → (m + 1) * 256 ^ k ≤ 2 ^ 63
    → value_loop k bs v m ≡ (v * 256 ^ k + be_value (take k bs), (m + 1) * 256 ^ k - 1)
unfolding value_loop be_value
value_loop-be_value zero bs v m h l hv hm = ground arith
value_loop-be_value (suc k) [] v m h l hv hm = absurd (omega arith)
value_loop-be_value (suc k) (b ∷ bs) v m h l hv hm =
    let p : ℕ = 256 ^ k in
    let pos : 0 < p = pow_256_pos k in
    let hv' : (v + 1) * (p * 256) ≤ 2 ^ 63 = rw (pow-suc 256 k) at hv in
    let hm' : (m + 1) * (p * 256) ≤ 2 ^ 63 = rw (pow-suc 256 k) at hm in
    let len : length (take k bs) ≡ k = omega (arith, length-take k bs) in
    rw
      (
        shift_in v b h.0 (room_now v p pos hv'),
        shift_in m 0xff (omega arith) (room_now m p pos hm'),
        len,
        value_loop-be_value k bs (v * 256 + b) (m * 256 + 0xff) h.1 (omega arith)
            (room_later v b p h.0 hv') (room_later m 0xff p (omega arith) hm'),
        pow-suc 256 k,
      )
      (ground arith)

finish_varint_lem :
    (n v m whole w : ℕ)
    → v + w ≡ whole
    → m + 1 ≡ w
    → finish_varint n (v, m) ≡ ((if whole == 2 * w - 1 then unknown else value (whole - w)), n)
unfolding finish_varint
finish_varint_lem n v m whole w e f =
    let back : whole - w ≡ v = omega arith in rw back (ground arith)

sub_mul_split : (b m p : ℕ) → m ≤ b → (b - m) * p + m * p ≡ b * p
sub_mul_split b m p h =
    let back : b - m + m ≡ b = omega arith in omega (arith, ap (λ (t : ℕ). t * p) back)

marker_room : (a p : ℕ) → a ≤ 128 → 128 * p ≤ 2 ^ 63 → a * p ≤ 2 ^ 63
marker_room a p h k = let le : a * p ≤ 128 * p = grind arith in omega arith

marker_top : (m p w : ℕ) → 0 < m → 0 < p → m * p ≡ w → (m - 1 + 1) * p - 1 + 1 ≡ w
marker_top m p w hm hp e =
    let back : m - 1 + 1 ≡ m = omega arith in
    let pos : 0 < m * p = grind arith in rw back (omega arith)

-- Where the first byte announces `k + 1` bytes by the marker `m`, and they are there.
decode_at :
    (k m b : ℕ) (bs : List ℕ)
    → m ≤ b
    → 0 < m
    → b < 2 * m
    → m ≤ 128
    → All IsByte bs
    → k ≤ length bs
    → m * 256 ^ k ≡ 128 ^ suc k
    → 128 * 256 ^ k ≤ 2 ^ 63
    → finish_varint (suc k) (value_loop k bs (b - m) (m - 1))
      ≡ (read_number (suc k) (be_value (take (suc k) (b ∷ bs))), suc k)
unfolding finish_varint be_value
decode_at k m b bs lo pos_m hi small h l weight fits =
    let p : ℕ = 256 ^ k in
    let len : length (take k bs) ≡ k = omega (arith, length-take k bs) in
    let split : (b - m) * p + m * p ≡ b * p = sub_mul_split b m p lo in
    let fits_b : (b - m + 1) * p ≤ 2 ^ 63 = marker_room (b - m + 1) p (omega arith) fits in
    let fits_m : (m - 1 + 1) * p ≤ 2 ^ 63 = marker_room (m - 1 + 1) p (omega arith) fits in
    let top : (m - 1 + 1) * p - 1 + 1 ≡ 128 ^ suc k =
      marker_top m p (128 ^ suc k) pos_m (pow_256_pos k) weight in
    rw (len, value_loop-be_value k bs (b - m) (m - 1) h l fits_b fits_m)
      (finish_varint_lem (suc k) _ _ _ (128 ^ suc k) (omega arith) top)

-- On every byte string `decode_varint` reads exactly what the format says: the error for a first
-- byte of zero, nothing while bytes are missing, and otherwise the number (or "unknown") that
-- the announced bytes spell, with their count.
pub decode_varint-read_varint :
    (bytes : List ℕ) → All IsByte bytes → decode_varint bytes ≡ read_varint bytes
unfolding decode_varint
decode_varint-read_varint [] h = refl
decode_varint-read_varint (b ∷ bs) h = rw (marker_loop-marker_of b h.0) (
    ground (
      arith,
      decode_at 0 128 b bs,
      decode_at 1 64 b bs,
      decode_at 2 32 b bs,
      decode_at 3 16 b bs,
      decode_at 4 8 b bs,
      decode_at 5 4 b bs,
      decode_at 6 2 b bs,
      decode_at 7 1 b bs,
    ))
