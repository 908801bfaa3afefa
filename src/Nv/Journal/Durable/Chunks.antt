-- ===== src/Nv/Journal/Durable/Chunks.antt =====
-- The loops over a payload on a lawful flash: they see exactly its bytes.
use ecu_drivers.Prelude.{
  ℕ, zero, suc, ◌+◌, ◌-◌, ◌≤◌, ◌<◌, ◌≡◌, ◌∙◌, sym, ap, List, ◌==◌, arith, length, slice, slice-zero,
  slice-chunk, take-slice, length-slice, store, store-nil, store-append, take, min,
}
use ecu_drivers.Foundation.Crc32.{
  crc_bytes, crc_bytes-append, crc_bytes-nil, crc32_of, crc32_of_lem, complement32,
}
use ecu_drivers.Foundation.Action.Rules.{Ensures, pure-Ensures, >>=-Ensures, if-Ensures, weaken}
use ecu_drivers.Nv.Contract.{NorFlash}
use ecu_drivers.Nv.Lawful.{IsLawful}
use ecu_drivers.Nv.Journal.Layout.{Config, io_unit}
use ecu_drivers.Nv.Journal.Monad.{JournalMemory}
use ecu_drivers.Nv.Journal.Recover.{crc_chunks, crc_payload, apply_chunks, apply_payload}
use ecu_drivers.Nv.Journal.Durable.Rules.{Is, FlashFails, read_then, assign_then}

-- the fields with other bytes in the mirror
abbrev pub with_mirror : JournalMemory → List ℕ → JournalMemory
with_mirror m bytes = record m { mirror = bytes }

module _ {S : Type 0} {contents : S → List ℕ} (c : Config) (flash : NorFlash S)
    (law : IsLawful contents flash) (unit_pos : 0 < io_unit c) (xs : List ℕ) where
  nothing_left :
      (state offset remaining : ℕ)
      → remaining ≡ 0
      → state ≡ crc_bytes state (slice xs offset remaining)
  nothing_left state offset remaining e = sym (
      ap (λ (k : ℕ). crc_bytes state (slice xs offset k)) e
      ∙ ap (λ l. crc_bytes state l) (slice-zero xs offset)
      ∙ crc_bytes-nil state)

  crc_chunks-Ensures :
      (fuel state offset remaining : ℕ) (m : JournalMemory)
      → remaining ≤ fuel
      → Ensures
          (Is contents xs m)
          (crc_chunks c flash fuel state offset remaining)
          (λ v w. (v ≡ crc_bytes state (slice xs offset remaining)) × Is contents xs m w)
          (FlashFails contents xs)
  unfolding crc_chunks
  crc_chunks-Ensures zero state offset remaining m enough =
      pure-Ensures _ state (λ w h. (nothing_left state offset remaining (omega arith), h))
  crc_chunks-Ensures (suc fuel) state offset remaining m enough =
      if-Ensures (remaining == 0)
        (λ e.
          pure-Ensures _ state
            (λ w h. (nothing_left state offset remaining (ground (arith, e)), h)))
        (λ e.
          read_then contents c flash law offset (io_unit c) _ (λ x w h. h)
            (weaken
              (crc_chunks-Ensures fuel
                (crc_bytes state (take (min remaining (io_unit c)) (slice xs offset (io_unit c))))
                (offset + io_unit c) (remaining - min remaining (io_unit c)) m
                (ground (arith, e, unit_pos, enough)))
              (λ w h. h)
              (λ v w h. (
                h.0
                    ∙ sym (crc_bytes-append state _ _)
                    ∙ ap (λ l. crc_bytes state l) (slice-chunk xs offset (io_unit c) remaining),
                h.1,
              ))))

  -- The checksum that recovery makes of a payload on the flash is that of its bytes.
  pub crc_payload-Ensures :
      (offset size : ℕ) (m : JournalMemory)
      → Ensures
          (Is contents xs m)
          (crc_payload c flash offset size)
          (λ v w. (v ≡ crc32_of (slice xs offset size)) × Is contents xs m w)
          (FlashFails contents xs)
  unfolding crc_payload
  crc_payload-Ensures offset size m =
      >>=-Ensures (λ v w. (v ≡ crc_bytes 0xFFFF_FFFF (slice xs offset size)) × Is contents xs m w)
        (crc_chunks-Ensures size 0xFFFF_FFFF offset size m (omega arith))
        (λ v.
          pure-Ensures _ (complement32 v)
            (λ w h. (ap complement32 h.0 ∙ sym (crc32_of_lem (slice xs offset size)), h.1)))

  no_bytes :
      (m : JournalMemory) (source destination remaining : ℕ)
      → remaining ≡ 0
      → m ≡ with_mirror m (store m.mirror destination (slice xs source remaining))
  no_bytes m source destination remaining e = ap (with_mirror m) (
      sym (
        ap (λ (k : ℕ). store m.mirror destination (slice xs source k)) e
        ∙ ap (λ l. store m.mirror destination l) (slice-zero xs source)
        ∙ store-nil m.mirror destination))

  joined :
      (m : JournalMemory) (source destination remaining : ℕ)
      → source + remaining ≤ length xs
      → store
          (store m.mirror destination
            (take (min remaining (io_unit c)) (slice xs source (io_unit c))))
          (destination + min remaining (io_unit c))
          (slice xs (source + io_unit c) (remaining - min remaining (io_unit c)))
        ≡ store m.mirror destination (slice xs source remaining)
  joined m source destination remaining inside =
      ap
        (λ (k : ℕ).
          store (store m.mirror destination first) (destination + k)
            (slice xs (source + io_unit c) (remaining - min remaining (io_unit c))))
        (sym long)
      ∙ store-append m.mirror destination first
          (slice xs (source + io_unit c) (remaining - min remaining (io_unit c)))
      ∙ ap (λ l. store m.mirror destination l) (slice-chunk xs source (io_unit c) remaining)
    where
      first : List ℕ
      first = take (min remaining (io_unit c)) (slice xs source (io_unit c))

      long : length first ≡ min remaining (io_unit c)
      long =
          ap length (take-slice xs source (min remaining (io_unit c)) (io_unit c) (omega arith))
          ∙ length-slice xs source (min remaining (io_unit c)) (omega (arith, inside))

  apply_chunks-Ensures :
      (fuel source destination remaining : ℕ) (m : JournalMemory)
      → remaining ≤ fuel
      → (0 < remaining → source + remaining ≤ length xs)
      → Ensures
          (Is contents xs m)
          (apply_chunks c flash fuel source destination remaining)
          (λ _.
            Is contents xs (with_mirror m (store m.mirror destination (slice xs source remaining))))
          (FlashFails contents xs)
  unfolding apply_chunks
  apply_chunks-Ensures zero source destination remaining m enough inside =
      pure-Ensures _ tt (λ w h. (h.0, h.1 ∙ no_bytes m source destination remaining (omega arith)))
  apply_chunks-Ensures (suc fuel) source destination remaining m enough inside =
      if-Ensures (remaining == 0)
        (λ e.
          pure-Ensures _ tt
            (λ w h. (h.0, h.1 ∙ no_bytes m source destination remaining (ground (arith, e)))))
        (λ e.
          read_then contents c flash law source (io_unit c) _ (λ x w h. h)
            (assign_then contents _ (
              weaken
                (apply_chunks-Ensures fuel (source + io_unit c)
                  (destination + min remaining (io_unit c)) (remaining - min remaining (io_unit c))
                  (with_mirror m (
                    store m.mirror destination
                      (take (min remaining (io_unit c)) (slice xs source (io_unit c)))))
                  (ground (arith, e, unit_pos, enough))
                  (λ h. omega (arith, h, inside (omega (arith, h)))))
                (λ w h. h)
                (λ v w h. (
                  h.0,
                  h.1
                      ∙ ap (with_mirror m)
                          (joined m source destination remaining (inside (ground (arith, e)))),
                )))))

  -- The bytes that recovery applies are those of the payload.
  pub apply_payload-Ensures :
      (offset destination size : ℕ) (m : JournalMemory)
      → offset + size ≤ length xs
      → Ensures
          (Is contents xs m)
          (apply_payload c flash offset destination size)
          (λ _. Is contents xs (with_mirror m (store m.mirror destination (slice xs offset size))))
          (FlashFails contents xs)
  unfolding apply_payload
  apply_payload-Ensures offset destination size m inside =
      apply_chunks-Ensures size offset destination size m (omega arith) (λ h. inside)
