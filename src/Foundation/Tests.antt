-- ===== src/Foundation/Tests.antt =====
-- Concrete runs of the deadline and the checksum of include/hal/foundation.
use ecu_drivers.Prelude.{
  bit_xor, ℕ, ◌+◌, ◌-◌, ◌≤◌, ◌<◌, ◌^◌, min, ◌≡◌, ◌↔◌, true, List, [], ◌∷◌, arith,
}
use ecu_drivers.Foundation.Word.{u64_max}
use ecu_drivers.Foundation.Crc32.{crc32, crc32_of, crc32_of-lt}
use ecu_drivers.Foundation.Crc32.Serial.{crc32_serial, feed_all, message_bits}
use ecu_drivers.Foundation.Span
use ecu_drivers.Foundation.Deadline.{
  Deadline, after, expired, remaining, after-remaining, remaining_elapses,
}

after-remaining_example :
    ((after 100 50).expires_at < 2 ^ 64)
    × (remaining (after 100 50) 100 ≡ min 50 (u64_max - 100))
    × ((expired (after 100 50) 160 ≡ true) ↔ (min (100 + 50) u64_max ≤ 160))
after-remaining_example = after-remaining 100 50 160 (omega arith) (omega arith)

abbrev at_150 : Deadline
at_150 = record { expires_at = 150 }

remaining_elapses_example :
    (remaining at_150 (100 + 30) ≡ remaining at_150 100 - 30)
    × ((remaining at_150 100 ≡ 0) ↔ (expired at_150 100 ≡ true))
    × (remaining at_150 100 ≤ at_150.expires_at)
remaining_elapses_example = remaining_elapses at_150 100 30 (omega arith) (omega arith)

abbrev two_bytes : List ℕ
two_bytes = 0x31 ∷ 0x32 ∷ []

crc32_of-lt_example : crc32_of two_bytes < 2 ^ 32
crc32_of-lt_example = crc32_of-lt two_bytes

crc32_serial_example :
    crc32 (Span.view two_bytes)
    ≡ bit_xor (feed_all (2 ^ 32 - 1) (message_bits two_bytes)) (2 ^ 32 - 1)
crc32_serial_example = crc32_serial two_bytes (omega arith, (omega arith, tt))
