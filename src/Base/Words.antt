-- ===== src/Base/Words.antt =====
-- C's conversion of an integer to `int` and `long`: two's complement words of 32 and 64 bits.
use confluent_kafka_python.Base.{ℕ, ◌-◌, ◌%◌, ◌≤◌, ◌<◌, ◌≡◌, ◌↔◌, arith, ltb, if◌then◌else◌}
use confluent_kafka_python.Base.Int.{ℤ, pos, negsuc, pos_part, neg_part, ◌-ℤ◌}

-- The bits of an integer as an unsigned word below `m`.
abbrev pub to_word : ℕ → ℤ → ℕ
to_word m (pos n) = n % m
to_word m (negsuc n) = m - 1 - n % m

-- The signed reading of such a word, `half` being m / 2.
abbrev pub of_word : ℕ → ℕ → ℕ → ℤ
of_word m half u = if ltb u half then pos u else negsuc (m - 1 - u)

abbrev pub int_mod : ℕ
int_mod = 4294967296

abbrev pub int_half : ℕ
int_half = 2147483648

abbrev pub long_mod : ℕ
long_mod = 18446744073709551616

abbrev pub long_half : ℕ
long_half = 9223372036854775808

-- The range of `int`.
abbrev pub IsInt : ℤ → Type 0
IsInt z = (pos_part z < int_half) × (neg_part z ≤ int_half)

unfoldable pub wrap_int : ℤ → ℤ
wrap_int z = of_word int_mod int_half (to_word int_mod z)

-- `a - b` in `int`, as the machine computes it.
unfoldable pub sub_int : ℤ → ℤ → ℤ
unfolding wrap_int ◌-ℤ◌
sub_int a b = wrap_int (a -ℤ b)

pub wrap_int_id : (z : ℤ) → IsInt z → wrap_int z ≡ z
unfolding wrap_int
wrap_int_id (pos n) h = ground arith
wrap_int_id (negsuc n) h = ground arith

pub sub_int-zero : (a b : ℤ) → IsInt a → IsInt b → (sub_int a b ≡ pos 0) ↔ (a ≡ b)
unfolding sub_int
sub_int-zero (pos a) (pos b) ha hb = ground arith
sub_int-zero (pos a) (negsuc b) ha hb = ground arith
sub_int-zero (negsuc a) (pos b) ha hb = ground arith
sub_int-zero (negsuc a) (negsuc b) ha hb = ground arith
