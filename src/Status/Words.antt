-- ===== src/Status/Words.antt =====
-- lib/common/include/status.h: the word of a packed result and its fields, as numbers.
use tf_rmm.Common.{ℕ, ◌+◌, ◌*◌, ◌^◌, ◌<◌, ◌≡◌, arith, bit_or}
use tf_rmm.Common.Bits.{or_field}
use tf_rmm.Utils.{inplace, extract}
use tf_rmm.Utils.Fields.{extract_value}

-- The fields of a packed result do not overlap.
pub place : (s w v : ℕ) → v * 2 ^ s < 2 ^ 64 → inplace s v ≡ v * 2 ^ s
place s w v h = omega arith

pub or_two :
    (st a : ℕ) → st < 17 → a < 2 ^ 48 → bit_or (inplace 0 st) (inplace 8 a) ≡ st + a * 2 ^ 8
or_two st a h k =
    rw (place 0 8 st (omega arith), place 8 48 a (omega arith))
      (omega (arith, or_field 8 48 (st * 2 ^ 0) a (omega arith) k))

pub or_three :
    (st a b : ℕ)
    → st < 17
    → a < 4
    → b < 2
    → bit_or (bit_or (inplace 0 st) (inplace 8 a)) (inplace 10 b) ≡ st + a * 2 ^ 8 + b * 2 ^ 10
or_three st a b h ha hb =
    rw (or_two st a h (omega arith), place 10 1 b (omega arith))
      (omega (arith, or_field 10 1 (st + a * 2 ^ 8) b (omega arith) hb))

pub or_addr :
    (st a b : ℕ)
    → st < 17
    → a < 2 ^ 8
    → b < 2 ^ 40
    → bit_or (bit_or (inplace 0 st) (inplace 8 a)) (inplace 16 b) ≡ st + a * 2 ^ 8 + b * 2 ^ 16
or_addr st a b h ha hb =
    rw (or_two st a h (omega arith), place 16 40 b (omega arith))
      (omega (arith, or_field 16 40 (st + a * 2 ^ 8) b (omega arith) hb))

-- The fields of a word, from its parts.
pub status_of :
    (w low a v : ℕ)
    → low < 2 ^ 0
    → a < 2 ^ 8
    → w ≡ low + (a + v * 2 ^ 8) * 2 ^ 0
    → extract 0 8 w ≡ a
unfolding extract
status_of w low a v h k e = omega (arith, extract_value 0 8 w)

pub mem_of :
    (w low a v : ℕ)
    → low < 2 ^ 8
    → a < 2 ^ 2
    → w ≡ low + (a + v * 2 ^ 2) * 2 ^ 8
    → extract 8 2 w ≡ a
unfolding extract
mem_of w low a v h k e = omega (arith, extract_value 8 2 w)

pub cancel_of :
    (w low a v : ℕ)
    → low < 2 ^ 10
    → a < 2 ^ 1
    → w ≡ low + (a + v * 2 ^ 1) * 2 ^ 10
    → extract 10 1 w ≡ a
unfolding extract
cancel_of w low a v h k e = omega (arith, extract_value 10 1 w)

pub level_of :
    (w low a v : ℕ)
    → low < 2 ^ 8
    → a < 2 ^ 8
    → w ≡ low + (a + v * 2 ^ 8) * 2 ^ 8
    → extract 8 8 w ≡ a
unfolding extract
level_of w low a v h k e = omega (arith, extract_value 8 8 w)

pub addr_of :
    (w low a v : ℕ)
    → low < 2 ^ 16
    → a < 2 ^ 40
    → w ≡ low + (a + v * 2 ^ 40) * 2 ^ 16
    → extract 16 40 w ≡ a
unfolding extract
addr_of w low a v h k e = omega (arith, extract_value 16 40 w)
