-- ===== src/Nv/Journal/Memory/Load.antt =====
-- Loading a region keeps every record that is applied, and the place of the next one, inside it.
use ecu_drivers.Prelude.{
  ℕ, zero, suc, ◌+◌, ◌-◌, ◌≤◌, ◌≡◌, ◌∙◌, sym, subst, Bool, true, false, not, ◌&&◌, ◌||◌, List,
  arith, length, length-store, store, take, min, ltb, leb, ◌==◌,
}
use ecu_drivers.Foundation.Crc32.{crc_bytes, complement32}
use ecu_drivers.Foundation.Action.Rules.{
  Ensures, >>=-Ensures, if-Ensures, pure-Ensures, fail-Ensures, weaken,
}
use ecu_drivers.Nv.Contract.{NorFlash}
use ecu_drivers.Nv.Journal.Error.{JournalError}
use ecu_drivers.Nv.Journal.Bytes.{all_erased, get_u32, get_u64}
use ecu_drivers.Nv.Journal.Layout.{
  Config, io_unit, region_start, region_end, record_area_offset, record_size, record_header_size,
  commit_size,
}
use ecu_drivers.Nv.Journal.Headers.{
  record_header_valid, record_commit_valid, region_header_valid, region_commit_valid,
}
use ecu_drivers.Nv.Journal.Monad.{JournalMemory, World}
use ecu_drivers.Nv.Journal.Storage.{read_array}
use ecu_drivers.Nv.Journal.Recover.{
  erased_loop, region_is_erased, inspect_region, crc_chunks, crc_payload, apply_chunks,
  apply_payload, finish_recovered_tail, load_record, load_loop,
}
use ecu_drivers.Nv.Journal.Memory.Mounted.{
  IsMounted, on_flash-Ensures, get_memory-Ensures, assign-Ensures,
}

-- the part of the invariant that holds before a region is loaded
abbrev pub IsSized : Config → JournalMemory → Type 0
IsSized c m = (length m.mirror ≡ c.logical_capacity) × (m.active_region ≤ 1)

module _ {S : Type 0} (c : Config) (flash : NorFlash S) where
  -- the loops that only read keep what is known of the fields
  module _ (P : JournalMemory → Type 0) {F : JournalError → World S → Type 0}
      (lose : (e : JournalError) (w : World S) → P w.memory → F e w) where
    crc_chunks-Ensures :
        (fuel state offset remaining : ℕ)
        → Ensures
            (λ w. P w.memory)
            (crc_chunks c flash fuel state offset remaining)
            (λ _ w. P w.memory)
            F
    unfolding crc_chunks read_array
    crc_chunks-Ensures zero state offset remaining = pure-Ensures _ state (λ w h. h)
    crc_chunks-Ensures (suc fuel) state offset remaining =
        if-Ensures (remaining == 0) (λ _. pure-Ensures _ state (λ w h. h))
          (λ _.
            >>=-Ensures (λ _ w. P w.memory) (on_flash-Ensures P lose _)
              (λ chunk.
                crc_chunks-Ensures fuel (crc_bytes state (take (min remaining (io_unit c)) chunk))
                  (offset + io_unit c) (remaining - min remaining (io_unit c))))

    erased_loop-Ensures :
        (fuel offset stop : ℕ)
        → Ensures (λ w. P w.memory) (erased_loop c flash fuel offset stop) (λ _ w. P w.memory) F
    unfolding erased_loop read_array
    erased_loop-Ensures zero offset stop = pure-Ensures _ true (λ w h. h)
    erased_loop-Ensures (suc fuel) offset stop =
        if-Ensures (ltb offset stop)
          (λ _.
            >>=-Ensures (λ _ w. P w.memory) (on_flash-Ensures P lose _)
              (λ chunk.
                if-Ensures (all_erased chunk)
                  (λ _. erased_loop-Ensures fuel (offset + io_unit c) stop)
                  (λ _. pure-Ensures _ false (λ w h. h))))
          (λ _. pure-Ensures _ true (λ w h. h))

    pub inspect_region-Ensures :
        (region : ℕ)
        → Ensures (λ w. P w.memory) (inspect_region c flash region) (λ _ w. P w.memory) F
    unfolding inspect_region region_is_erased read_array
    inspect_region-Ensures region =
        >>=-Ensures (λ _ w. P w.memory) (on_flash-Ensures P lose _)
          (λ header.
            >>=-Ensures (λ _ w. P w.memory) (on_flash-Ensures P lose _)
              (λ commit.
                if-Ensures
                  (region_header_valid c header && region_commit_valid commit (get_u64 header 8))
                  (λ _. pure-Ensures _ _ (λ w h. h))
                  (λ _.
                    >>=-Ensures (λ _ w. P w.memory)
                      (erased_loop-Ensures c.region_size (region_start c region)
                        (region_end c region))
                      (λ erased. pure-Ensures _ _ (λ w h. h)))))

    apply_chunks-Ensures :
        ((m : JournalMemory) (i : ℕ) (vs : List ℕ)
          → P m
          → P (record m { mirror = store m.mirror i vs }))
        → (fuel source destination remaining : ℕ)
        → Ensures
            (λ w. P w.memory)
            (apply_chunks c flash fuel source destination remaining)
            (λ _ w. P w.memory)
            F
    unfolding apply_chunks read_array
    apply_chunks-Ensures stores zero source destination remaining = pure-Ensures _ tt (λ w h. h)
    apply_chunks-Ensures stores (suc fuel) source destination remaining =
        if-Ensures (remaining == 0) (λ _. pure-Ensures _ tt (λ w h. h))
          (λ _.
            >>=-Ensures (λ _ w. P w.memory) (on_flash-Ensures P lose _)
              (λ chunk.
                >>=-Ensures (λ _ w. P w.memory)
                  (assign-Ensures P P _
                    (λ m h. stores m destination (take (min remaining (io_unit c)) chunk) h))
                  (λ _.
                    apply_chunks-Ensures stores fuel (source + io_unit c)
                      (destination + min remaining (io_unit c))
                      (remaining - min remaining (io_unit c)))))

  -- A record of `size` bytes at `offset` lies in the active region.
  abbrev Fits : ℕ → ℕ → JournalMemory → Type 0
  Fits offset size m =
      IsMounted c m
      × (region_start c m.active_region + record_area_offset c ≤ offset)
      × (offset + record_size c size ≤ region_end c m.active_region)

  abbrev Sized : JournalError → World S → Type 0
  Sized _ w = IsSized c w.memory

  finish-Ensures :
      (prefix_valid unusable : Bool)
      → Ensures
          (λ (w : World S). IsMounted c w.memory)
          (finish_recovered_tail c flash prefix_valid unusable)
          (λ _ w. IsMounted c w.memory)
          Sized
  unfolding finish_recovered_tail
  finish-Ensures prefix_valid unusable =
      >>=-Ensures (λ _ w. IsMounted c w.memory)
        (assign-Ensures (IsMounted c) (IsMounted c) _ (λ m h. h))
        (λ _.
          if-Ensures prefix_valid (λ _. pure-Ensures _ tt (λ w h. h))
            (λ _. fail-Ensures _ (λ w h. (h.0, h.1))))

  load_record-Ensures :
      (offset : ℕ) (header : List ℕ)
      → Ensures
          (λ (w : World S). Fits offset (get_u64 header 24) w.memory)
          (load_record c flash offset header)
          (λ _ w. IsMounted c w.memory)
          Sized
  unfolding load_record read_array crc_payload apply_payload
  load_record-Ensures offset header =
      >>=-Ensures (λ _ w. Here w.memory) (on_flash-Ensures Here (λ e w h. (h.0.0, h.0.1)) _)
        (λ commit.
          if-Ensures (not (record_commit_valid commit (get_u64 header 8)))
            (λ _. pure-Ensures _ false (λ w h. h.0))
            (λ _.
              >>=-Ensures (λ _ w. Here w.memory)
                (>>=-Ensures (λ _ w. Here w.memory)
                  (crc_chunks-Ensures Here (λ e w h. (h.0.0, h.0.1)) (get_u64 header 24) 0xFFFF_FFFF
                    (offset + record_header_size c) (get_u64 header 24))
                  (λ state. pure-Ensures _ (complement32 state) (λ w h. h)))
                (λ crc.
                  if-Ensures (not (crc == get_u32 header 32))
                    (λ _. pure-Ensures _ false (λ w h. h.0))
                    (λ _.
                      >>=-Ensures (λ _ w. Here w.memory)
                        (apply_chunks-Ensures Here (λ e w h. (h.0.0, h.0.1))
                          (λ m i vs h.
                            ((length-store m.mirror i vs ∙ h.0.0, h.0.1, h.0.2, h.0.3), h.1, h.2))
                          (get_u64 header 24) (offset + record_header_size c) (get_u64 header 16)
                          (get_u64 header 24))
                        (λ _.
                          >>=-Ensures (λ _ w. IsMounted c w.memory)
                            (assign-Ensures Here (IsMounted c) _
                              (λ m h. (h.0.0, h.0.1, omega (arith, h.1), h.2)))
                            (λ _. pure-Ensures _ true (λ w h. h)))))))
    where
      Here : JournalMemory → Type 0
      Here = Fits offset (get_u64 header 24)

  fits :
      (size : ℕ) (m : JournalMemory)
      → IsMounted c m
      → ltb (region_end c m.active_region - m.append_offset) (record_size c size) ≡ false
      → Fits m.append_offset size m
  fits size m h e = (h, h.2, ground (arith, h.3, e))

  pub load_loop-Ensures :
      (fuel : ℕ) (snapshot_loaded : Bool)
      → Ensures
          (λ (w : World S). IsMounted c w.memory)
          (load_loop c flash fuel snapshot_loaded)
          (λ _ w. IsMounted c w.memory)
          Sized
  unfolding load_loop read_array
  load_loop-Ensures zero snapshot_loaded = finish-Ensures snapshot_loaded true
  load_loop-Ensures (suc fuel) snapshot_loaded =
      >>=-Ensures (λ m w. (m ≡ w.memory) × IsMounted c w.memory) (get_memory-Ensures (IsMounted c))
        (λ m.
          if-Ensures
            (not (
              leb (m.append_offset + record_header_size c + commit_size c)
                (region_end c m.active_region)))
            (λ _. finish true)
            (λ _.
              >>=-Ensures (λ _ w. Known m w.memory)
                (on_flash-Ensures (Known m) (λ e w h. (h.1.0, h.1.1)) _)
                (λ header.
                  if-Ensures (all_erased header) (λ _. finish false)
                    (λ _.
                      if-Ensures (not (record_header_valid header)) (λ _. finish true)
                        (λ _.
                          if-Ensures
                            (ltb c.logical_capacity (get_u64 header 16)
                              || get_u64 header 24 == 0
                              || ltb (c.logical_capacity - get_u64 header 16) (get_u64 header 24)
                              || leb (get_u64 header 8) m.last_sequence)
                            (λ _. finish true)
                            (λ _.
                              if-Ensures
                                (not snapshot_loaded
                                  && (not (get_u64 header 16 == 0)
                                      || not (get_u64 header 24 == c.logical_capacity)))
                                (λ _. fail-Ensures _ (λ w h. (h.1.0, h.1.1)))
                                (λ _.
                                  if-Ensures
                                    (ltb (region_end c m.active_region - m.append_offset)
                                      (record_size c (get_u64 header 24)))
                                    (λ _. finish true)
                                    (λ e.
                                      >>=-Ensures (λ _ w. IsMounted c w.memory)
                                        (weaken (load_record-Ensures m.append_offset header)
                                          (λ w h.
                                            subst (Fits m.append_offset (get_u64 header 24)) h.0 (
                                              fits (get_u64 header 24) m
                                                (subst (IsMounted c) (sym h.0) h.1) e))
                                          (λ a w h. h))
                                        (λ loaded.
                                          if-Ensures loaded (λ _. load_loop-Ensures fuel true)
                                            (λ _. finish-Ensures snapshot_loaded true))))))))))
    where
      Known : JournalMemory → JournalMemory → Type 0
      Known m mem = (m ≡ mem) × IsMounted c mem

      finish :
          {m : JournalMemory} (unusable : Bool)
          → Ensures
              (λ (w : World S). Known m w.memory)
              (finish_recovered_tail c flash snapshot_loaded unusable)
              (λ _ w. IsMounted c w.memory)
              Sized
      finish unusable = weaken (finish-Ensures snapshot_loaded unusable) (λ w h. h.1) (λ a w h. h)
