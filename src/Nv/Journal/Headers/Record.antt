-- ===== src/Nv/Journal/Headers/Record.antt =====
-- The record header: recovery accepts a written one, and reads the fields that it was written with.
use ecu_drivers.Prelude.{
  ℕ, ◌^◌, ◌≤◌, ◌<◌, ◌≡◌, ◌∙◌, sym, true, List, arith, length, take, length-replicate,
}
use ecu_drivers.Foundation.Crc32.{crc32_of-lt}
use ecu_drivers.Nv.Journal.Bytes.{fill_erased, put_u32, get_u16, get_u32, get_u64}
use ecu_drivers.Nv.Journal.Bytes.Fields.{get_u32-put_u32, length-put_u32}
use ecu_drivers.Nv.Journal.Layout.{Config, IsConfig, record_header_size}
use ecu_drivers.Nv.Journal.Layout.Sizes.{headers_fit}
use ecu_drivers.Nv.Journal.Headers.Body.{
  body, length-body, body_magic, body_version, body_first, body_second, body_third,
}
use ecu_drivers.Nv.Journal.Headers.Accept.{first_kept, u16_kept, u32_kept, u64_kept}
use ecu_drivers.Nv.Journal.Headers.{record_header, record_header_valid, record_magic, crc_of_first}

-- A written record header is accepted, and its sequence number, offset, size and payload checksum
-- are read back.
pub record_header_accepted :
    {c : Config}
    → IsConfig c
    → (sequence offset size crc : ℕ) → sequence < 2 ^ 64
    → offset < 2 ^ 64
    → size < 2 ^ 64
    → crc < 2 ^ 32
    → let header = record_header c sequence offset size crc in
      (record_header_valid header ≡ true)
      × (get_u64 header 8 ≡ sequence)
      × (get_u64 header 16 ≡ offset)
      × (get_u64 header 24 ≡ size)
      × (get_u32 header 32 ≡ crc)
unfolding record_header record_header_valid
record_header_accepted {c} ok sequence offset size crc hs ho hn hc =
    (ground (arith, f0, f4, f36), f8, f16, f24, f32)
  where
    start : List ℕ
    start = fill_erased (record_header_size c)

    long : 40 ≤ length start
    long = omega (arith, length-replicate {A = ℕ} (record_header_size c) 0xFF, headers_fit ok)

    front : List ℕ
    front = body start record_magic sequence offset size

    middle : List ℕ
    middle = put_u32 front 32 crc

    check : ℕ
    check = crc_of_first 36 middle

    f0 : get_u32 (put_u32 middle 36 check) 0 ≡ record_magic
    f0 =
        u32_kept middle 36 check 0 (omega arith)
        ∙ u32_kept front 32 crc 0 (omega arith)
        ∙ body_magic start record_magic sequence offset size (omega (arith, long)) (omega arith)

    f4 : get_u16 (put_u32 middle 36 check) 4 ≡ 1
    f4 =
        u16_kept middle 36 check 4 (omega arith)
        ∙ u16_kept front 32 crc 4 (omega arith)
        ∙ body_version start record_magic sequence offset size (omega (arith, long))

    f8 : get_u64 (put_u32 middle 36 check) 8 ≡ sequence
    f8 =
        u64_kept middle 36 check 8 (omega arith)
        ∙ u64_kept front 32 crc 8 (omega arith)
        ∙ body_first start record_magic sequence offset size (omega (arith, long)) hs

    f16 : get_u64 (put_u32 middle 36 check) 16 ≡ offset
    f16 =
        u64_kept middle 36 check 16 (omega arith)
        ∙ u64_kept front 32 crc 16 (omega arith)
        ∙ body_second start record_magic sequence offset size (omega (arith, long)) ho

    f24 : get_u64 (put_u32 middle 36 check) 24 ≡ size
    f24 =
        u64_kept middle 36 check 24 (omega arith)
        ∙ u64_kept front 32 crc 24 (omega arith)
        ∙ body_third start record_magic sequence offset size (omega (arith, long)) hn

    f32 : get_u32 (put_u32 middle 36 check) 32 ≡ crc
    f32 =
        u32_kept middle 36 check 32 (omega arith)
        ∙ get_u32-put_u32 front 32 crc
            (omega (arith, long, length-body start record_magic sequence offset size)) hc

    f36 : get_u32 (put_u32 middle 36 check) 36 ≡ crc_of_first 36 (put_u32 middle 36 check)
    f36 =
        get_u32-put_u32 middle 36 check
          (omega (
            arith,
            long,
            length-put_u32 front 32 crc,
            length-body start record_magic sequence offset size,
          ))
          (crc32_of-lt (take 36 middle))
        ∙ sym (first_kept middle 36 check 36 (omega arith))
