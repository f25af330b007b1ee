-- ===== src/Bitlock.antt =====
-- lib/arch/include/aarch64/bitlock.h: a lock in one bit of a word of `bits` bits. Each operation is the
-- one step of its atomic instruction on the value that it finds; waiting is a test that the value found
-- ends the wait.
pub mod Laws
use tf_rmm.Common.{
  ℕ, ◌-◌, ◌*◌, ◌%◌, ◌^◌, Bool, true, not, ◌==◌, if◌then◌else◌, bit_and, bit_or, Option, none, some,
}

-- (uint8_t)(1U << bit) and (uint16_t)(1U << bit)
abbrev pub bit_mask : ℕ → ℕ → ℕ
bit_mask bits bit = 2 ^ bit % 2 ^ bits

-- The new word, and whether the bit was clear and is now the caller's.
unfoldable pub bitlock_try_acquire : ℕ → ℕ → ℕ → ℕ × Bool
bitlock_try_acquire bits loc bit =
    let mask = bit_mask bits bit in (bit_or loc mask, bit_and loc mask == 0)

abbrev pub bitlock_try_acquire_8 : ℕ → ℕ → ℕ × Bool
bitlock_try_acquire_8 = bitlock_try_acquire 8

abbrev pub bitlock_try_acquire_16 : ℕ → ℕ → ℕ × Bool
bitlock_try_acquire_16 = bitlock_try_acquire 16

-- Whether a wait on this value of the word goes on.
unfoldable pub bitlock_wait_while : ℕ → ℕ → ℕ → Bool
bitlock_wait_while loc mask value = bit_and loc mask == value

-- A round of the loop in `bitlock_acquire_8` and `_16`, from the value found once the wait is over:
-- `none` where the attempt fails and the loop goes on.
unfoldable pub bitlock_acquire : ℕ → ℕ → ℕ → Option ℕ
bitlock_acquire bits loc bit =
    let (loc', acquired) = bitlock_try_acquire bits loc bit in if acquired then some loc' else none

unfoldable pub bitlock_release : ℕ → ℕ → ℕ → ℕ
bitlock_release bits loc bit = bit_and loc (2 ^ bits - 1 - bit_mask bits bit)

abbrev pub bitlock_release_8 : ℕ → ℕ → ℕ
bitlock_release_8 = bitlock_release 8

abbrev pub bitlock_release_16 : ℕ → ℕ → ℕ
bitlock_release_16 = bitlock_release 16
