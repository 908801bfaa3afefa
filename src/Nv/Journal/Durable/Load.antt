-- ===== src/Nv/Journal/Durable/Load.antt =====
-- Recovery of a region on a lawful flash: it replays exactly the entries that the region keeps.
use ecu_drivers.Prelude.{
  ℕ, zero, suc, ◌+◌, ◌-◌, ◌≤◌, ◌<◌, ◌^◌, ◌≡◌, refl, ◌∙◌, sym, ap, subst, ◌⊎◌, inl, inr, Bool, true,
  false, not, ◌&&◌, ◌||◌, List, [], ◌∷◌, ◌==◌, ltb, leb, ==_self, arith, length, slice, store,
  replicate, get_or, length-replicate, get_or-store_before, get_or-store_at,
}
use ecu_drivers.Foundation.Crc32.{crc32_of, crc32_of-lt}
use ecu_drivers.Foundation.Action.Rules.{Ensures, pure-Ensures, >>=-Ensures}
use ecu_drivers.Nv.Contract.{NorFlash}
use ecu_drivers.Nv.Lawful.{IsLawful}
use ecu_drivers.Nv.Journal.Bytes.{
  fill_erased, all_erased, get_u32, get_u64, put_u16, put_u32, put_u64,
}
use ecu_drivers.Nv.Journal.Bytes.Fields.{all_erased-replicate, all_erased_otherwise}
use ecu_drivers.Nv.Journal.Layout.{
  Config, IsConfig, io_unit, journal_align_up, record_header_size, commit_size, record_size,
  region_end,
}
use ecu_drivers.Nv.Journal.Layout.Sizes.{
  io_unit_lem, record_size-ge, logical-le-capacity, headers_fit,
}
use ecu_drivers.Nv.Journal.Headers.{
  record_header, record_header_valid, record_commit_valid, record_commit_magic,
}
use ecu_drivers.Nv.Journal.Headers.Accept.{commit_array_accepted}
use ecu_drivers.Nv.Journal.Headers.Record.{record_header_accepted}
use ecu_drivers.Nv.Journal.Monad.{JournalMemory}
use ecu_drivers.Nv.Journal.Recover.{finish_recovered_tail, load_record, load_loop}
use ecu_drivers.Nv.Journal.Durable.Rules.{
  Is, FlashFails, if_true-Ensures, if_false-Ensures, known_then, get_memory_then, read_then,
  assign_then,
}
use ecu_drivers.Nv.Journal.Durable.Entries.{
  Entry, IsEntry, IsRecord, Kept, end_of, last_of, replay, end_of-ge,
}
use ecu_drivers.Nv.Journal.Durable.Chunks.{crc_payload-Ensures, apply_payload-Ensures, with_mirror}

-- What recovery reads of the header of an entry.
pub record Reads (header : List ℕ) (e : Entry) : Type 0 where
  pub valid_header : record_header_valid header ≡ true
  pub not_erased : all_erased header ≡ false
  pub sequence_is : get_u64 header 8 ≡ e.sequence
  pub location_is : get_u64 header 16 ≡ e.location
  pub size_is : get_u64 header 24 ≡ length e.payload
  pub crc_is : get_u32 header 32 ≡ crc32_of e.payload

module _ {c : Config} (ok : IsConfig c) where
  first_byte :
      (sequence location size crc : ℕ)
      → get_or (record_header c sequence location size crc) 0 0 ≡ 0x44
  unfolding record_header put_u16 put_u32 put_u64
  first_byte sequence location size crc =
      get_or-store_before _ 36 _ 0 0 (omega arith)
      ∙ get_or-store_before _ 32 _ 0 0 (omega arith)
      ∙ get_or-store_before _ 24 _ 0 0 (omega arith)
      ∙ get_or-store_before _ 16 _ 0 0 (omega arith)
      ∙ get_or-store_before _ 8 _ 0 0 (omega arith)
      ∙ get_or-store_before _ 6 _ 0 0 (omega arith)
      ∙ get_or-store_before _ 4 _ 0 0 (omega arith)
      ∙ get_or-store_at (fill_erased (record_header_size c)) 0 _ 0 0
          (omega (arith, length-replicate {A = ℕ} (record_header_size c) 0xFF, headers_fit ok))
          (omega arith)

  pub Reads-back :
      (e : Entry)
      → IsEntry c e
      → Reads (record_header c e.sequence e.location (length e.payload) (crc32_of e.payload)) e
  Reads-back e h =
      let small : c.logical_capacity < 2 ^ 64 =
        omega (arith, logical-le-capacity ok, ok.capacity_word) in
      let accepted =
        record_header_accepted ok e.sequence e.location (length e.payload) (crc32_of e.payload)
          h.sequence_word (omega (arith, small, h.inside)) (omega (arith, small, h.inside))
          (crc32_of-lt e.payload) in
      record {
        valid_header = accepted.0;
        not_erased =
            all_erased_otherwise _
              (first_byte e.sequence e.location (length e.payload) (crc32_of e.payload));
        sequence_is = accepted.1;
        location_is = accepted.2;
        size_is = accepted.3;
        crc_is = accepted.4;
      }

-- the fields behind an applied entry
abbrev pub after_entry : Config → JournalMemory → Entry → JournalMemory
after_entry c m e = record m {
  mirror = store m.mirror e.location e.payload;
  last_sequence = e.sequence;
  append_offset = m.append_offset + record_size c (length e.payload);
}

-- How a chain ends: in erased bytes where a header and a commit would go, or without room for them.
abbrev pub Tail : Config → List ℕ → ℕ → ℕ → Bool → Type 0
Tail c xs offset stop false =
    (offset + record_header_size c + commit_size c ≤ stop)
    × (slice xs offset (record_header_size c) ≡ replicate (record_header_size c) 0xFF)
Tail c xs offset stop true = stop < offset + record_header_size c + commit_size c

-- the first entry is a snapshot of the whole memory
abbrev pub StartsWhole : Config → List Entry → Type 0
StartsWhole c [] = ⊥
StartsWhole c (e ∷ es) = (e.location ≡ 0) × (length e.payload ≡ c.logical_capacity)

-- the fields behind a chain of entries
abbrev pub after_entries : Config → JournalMemory → List Entry → Bool → JournalMemory
after_entries c m es unusable = record m {
  mirror = replay m.mirror es;
  last_sequence = last_of m.last_sequence es;
  append_offset = end_of c m.append_offset es;
  tail_unusable = unusable;
}

module _ {S : Type 0} {contents : S → List ℕ} {c : Config} (ok : IsConfig c) (flash : NorFlash S)
    (law : IsLawful contents flash) (xs : List ℕ) where
  load_record-Ensures :
      (header : List ℕ) (e : Entry) (m : JournalMemory)
      → Reads header e
      → IsEntry c e
      → IsRecord c xs m.append_offset e
      → m.append_offset + record_size c (length e.payload) ≤ length xs
      → Ensures
          (Is contents xs m)
          (load_record c flash m.append_offset header)
          (λ b w. (b ≡ true) × Is contents xs (after_entry c m e) w)
          (FlashFails contents xs)
  unfolding load_record
  load_record-Ensures header e m seen h r inside =
      rw (seen.sequence_is, seen.location_is, seen.size_is, seen.crc_is)
        (read_then contents c flash law _ _ _ (λ x w k. k)
          (if_false-Ensures
            (not (
              record_commit_valid
                (slice xs
                  (m.append_offset
                    + record_header_size c
                    + journal_align_up (length e.payload) (io_unit c))
                  (commit_size c))
                e.sequence))
            _ _ (ground (arith, committed))
            (>>=-Ensures
              (λ v w.
                (v
                  ≡ crc32_of (slice xs (m.append_offset + record_header_size c) (length e.payload)))
                × Is contents xs m w)
              (crc_payload-Ensures c flash law (io_unit_lem ok).0 xs _ _ m)
              (known_then _ _ (
                if_false-Ensures
                  (not (
                    crc32_of (slice xs (m.append_offset + record_header_size c) (length e.payload))
                    == crc32_of e.payload))
                  _ _ (rw (r.payload_at, ==_self (crc32_of e.payload)) refl)
                  (>>=-Ensures
                    (λ _. Is contents xs (
                      with_mirror m (
                        store m.mirror e.location
                          (slice xs (m.append_offset + record_header_size c) (length e.payload)))))
                    (apply_payload-Ensures c flash law (io_unit_lem ok).0 xs _ _ _ m
                      (omega (arith, inside, record_size-ge ok (length e.payload))))
                    (λ _. assign_then contents _ (
                      pure-Ensures _ true
                        (λ w k. (refl, (k.0, k.1 ∙ ap (λ l. after_store l) r.payload_at)))))))))))
    where
      committed :
          record_commit_valid
            (slice xs
              (m.append_offset
                + record_header_size c
                + journal_align_up (length e.payload) (io_unit c))
              (commit_size c))
            e.sequence
          ≡ true
      committed =
          ap (λ l. record_commit_valid l e.sequence) r.commit_at
          ∙ commit_array_accepted ok record_commit_magic e.sequence e.sequence (omega arith)
              h.sequence_word
          ∙ ==_self e.sequence

      after_store : List ℕ → JournalMemory
      after_store bytes = record m {
        mirror = store m.mirror e.location bytes;
        last_sequence = e.sequence;
        append_offset = m.append_offset + record_size c (length e.payload);
      }

  finish-Ensures :
      (m : JournalMemory) (unusable : Bool)
      → Ensures
          (Is contents xs m)
          (finish_recovered_tail c flash true unusable)
          (λ _. Is contents xs (record m { tail_unusable = unusable }))
          (FlashFails contents xs)
  unfolding finish_recovered_tail
  finish-Ensures m unusable = assign_then contents _ (pure-Ensures _ tt (λ w h. h))

  pub load_loop-Ensures :
      (es : List Entry) (fuel : ℕ) (loaded unusable : Bool) (m : JournalMemory)
      → Kept c xs m.append_offset m.last_sequence es
      → Tail c xs (end_of c m.append_offset es) (region_end c m.active_region) unusable
      → end_of c m.append_offset es ≤ region_end c m.active_region
      → region_end c m.active_region ≤ length xs
      → (loaded ≡ true) ⊎ StartsWhole c es
      → length es < fuel
      → Ensures
          (Is contents xs m)
          (load_loop c flash fuel loaded)
          (λ _. Is contents xs (after_entries c m es unusable))
          (FlashFails contents xs)
  unfolding load_loop
  load_loop-Ensures es zero loaded unusable m k t inside whole start enough = absurd (omega arith)
  load_loop-Ensures [] (suc fuel) loaded unusable m k t inside whole (inr none) enough =
      elim none [ ]
  load_loop-Ensures [] (suc fuel) loaded true m k t inside whole (inl start) enough = rw start (
      get_memory_then contents _ (
        if_true-Ensures
          (not (
            leb (m.append_offset + record_header_size c + commit_size c)
              (region_end c m.active_region)))
          _ _ (ground (arith, t)) (finish-Ensures m true)))
  load_loop-Ensures [] (suc fuel) loaded false m k t inside whole (inl start) enough = rw start (
      get_memory_then contents _ (
        if_false-Ensures
          (not (
            leb (m.append_offset + record_header_size c + commit_size c)
              (region_end c m.active_region)))
          _ _ (ground (arith, t))
          (read_then contents c flash law _ _ _ (λ x w h. h)
            (if_true-Ensures (all_erased (slice xs m.append_offset (record_header_size c))) _ _
              (ap all_erased t.1 ∙ all_erased-replicate (record_header_size c))
              (finish-Ensures m false)))))
  load_loop-Ensures (e ∷ es) (suc fuel) loaded unusable m k t inside whole start enough =
      get_memory_then contents _ (
        if_false-Ensures
          (not (
            leb (m.append_offset + record_header_size c + commit_size c)
              (region_end c m.active_region)))
          _ _ (ground (arith, reach, record_size-ge ok (length e.payload)))
          (read_then contents c flash law _ _ _ (λ x w h. h)
            (if_false-Ensures (all_erased header) _ _ seen.not_erased (
              if_false-Ensures (not (record_header_valid header)) _ _
                (ground (arith, seen.valid_header))
                (if_false-Ensures
                  (ltb c.logical_capacity (get_u64 header 16)
                    || get_u64 header 24 == 0
                    || ltb (c.logical_capacity - get_u64 header 16) (get_u64 header 24)
                    || leb (get_u64 header 8) m.last_sequence)
                  _ _
                  (ground (
                    arith, seen.location_is, seen.size_is, seen.sequence_is, k.0.inside, k.0.pos,
                    k.1,
                  ))
                  (if_false-Ensures
                    (not loaded
                      && (not (get_u64 header 16 == 0)
                          || not (get_u64 header 24 == c.logical_capacity)))
                    _ _ (snapshot start)
                    (if_false-Ensures
                      (ltb (region_end c m.active_region - m.append_offset)
                        (record_size c (get_u64 header 24)))
                      _ _ (ground (arith, reach, seen.size_is))
                      (>>=-Ensures (λ b w. (b ≡ true) × Is contents xs (after_entry c m e) w)
                        (load_record-Ensures header e m seen k.0 k.2 (omega (arith, reach, whole)))
                        (known_then true _ (
                          load_loop-Ensures es fuel true unusable (after_entry c m e) k.3 t inside
                            whole (inl refl) (omega (arith, enough))))))))))))
    where
      header : List ℕ
      header = slice xs m.append_offset (record_header_size c)

      seen : Reads header e
      seen = subst (λ l. Reads l e) (sym k.2.header_at) (Reads-back ok e k.0)

      reach : m.append_offset + record_size c (length e.payload) ≤ region_end c m.active_region
      reach =
          omega (arith, inside, end_of-ge c (m.append_offset + record_size c (length e.payload)) es)

      snapshot :
          (loaded ≡ true) ⊎ StartsWhole c (e ∷ es)
          → (not loaded
              && (not (get_u64 header 16 == 0) || not (get_u64 header 24 == c.logical_capacity)))
            ≡ false
      snapshot (inl h) = ground (arith, h)
      snapshot (inr h) = ground (arith, seen.location_is, seen.size_is, h)
