-- ===== src/Ebml/Varint/Marker.antt =====
-- The length marker of a varint, as arithmetic on its first byte.
use webmetro.Base.{ℕ, ◌-◌, ◌<◌, ◌≡◌, refl, Bool, true, ◌&&◌, arith, ltb, ◌==◌, if◌then◌else◌}
use webmetro.Base.Bits.{all_below, all_below_at}
use webmetro.Ebml.Varint.{Scan, scan_start, marker_loop}

-- A byte from 2 ^ (8 - n) on starts a varint of `n` bytes.
abbrev pub marker_at : ℕ → ℕ → ℕ → Scan
marker_at n m b = record { payload = b - m; value_length = n; mask = m; unknown_marker = m - 1 }

abbrev pub marker_of : ℕ → Scan
marker_of b =
    if ltb 127 b
    then marker_at 1 128 b
    else if ltb 63 b
    then marker_at 2 64 b
    else if ltb 31 b
    then marker_at 3 32 b
    else if ltb 15 b
    then marker_at 4 16 b
    else if ltb 7 b
    then marker_at 5 8 b
    else if ltb 3 b
    then marker_at 6 4 b
    else if ltb 1 b
    then marker_at 7 2 b
    else if ltb 0 b
    then marker_at 8 1 b
    else record scan_start { value_length = 9; mask = 0 }

same_scan : Scan → Scan → Bool
same_scan s t =
    s.payload == t.payload
    && s.value_length == t.value_length
    && s.mask == t.mask
    && s.unknown_marker == t.unknown_marker

same_scan-eq : (s t : Scan) → same_scan s t ≡ true → s ≡ t
unfolding same_scan
same_scan-eq s t h = ground arith

marker_table : all_below 256 (λ b. same_scan (marker_loop 9 b scan_start) (marker_of b)) ≡ true
unfolding all_below same_scan marker_loop
marker_table = refl

-- The loop on the first byte ends by its own test, and finds the highest bit that is set.
pub marker_loop-marker_of : (b : ℕ) → b < 256 → marker_loop 9 b scan_start ≡ marker_of b
marker_loop-marker_of b h = same_scan-eq _ _ (all_below_at 256 b _ h marker_table)
