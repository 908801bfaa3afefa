-- ===== src/Nv/Journal/Durable/Compaction.antt =====
-- `compact` on a kept journal: the other region keeps the mirror as one entry.
use ecu_drivers.Prelude.{
  ℕ, zero, suc, ◌+◌, ◌-◌, ◌≤◌, ◌<◌, ◌≡◌, refl, ◌∙◌, sym, ap, subst, ◌⊎◌, inl, inr, false, ◌||◌,
  List, [], ◌∷◌, ◌==◌, arith, length, store, store_all, length-store, length-replicate,
}
use ecu_drivers.Foundation.Word.{u64_max}
use ecu_drivers.Foundation.Action.{◌>>◌}
use ecu_drivers.Foundation.Action.Rules.{Ensures, fail-Ensures, >>=-Ensures, if-Ensures, adapt}
use ecu_drivers.Nv.Contract.{NorFlash}
use ecu_drivers.Nv.Lawful.{IsLawful, AgreeOutside}
use ecu_drivers.Nv.Journal.Bytes.{fill_erased}
use ecu_drivers.Nv.Journal.Layout.{
  Config, IsConfig, record_size, record_area_offset, region_end, region_start, region_header_size,
}
use ecu_drivers.Nv.Journal.Headers.{region_header, region_commit_magic}
use ecu_drivers.Nv.Journal.Monad.{JournalMemory, assign}
use ecu_drivers.Nv.Journal.Memory.{compact}
use ecu_drivers.Nv.Journal.Storage.{erase_region, write_region_header, write_region_commit, sync}
use ecu_drivers.Nv.Journal.Durable.Rules.{Is, get_memory_then, assign_then, program_array-Ensures}
use ecu_drivers.Nv.Journal.Durable.Entries.{Entry, IsRecord, length-replay}
use ecu_drivers.Nv.Journal.Durable.Append.{
  Appended, at_contents, write_record-Appended, length-region_header, length-commit_array,
}
use ecu_drivers.Nv.Journal.Durable.Changes.{Clean, Clean-front}
use ecu_drivers.Nv.Journal.Durable.Region.{area_start, is_taken}
use ecu_drivers.Nv.Journal.Durable.Recovery.{other_region}
use ecu_drivers.Nv.Journal.Durable.State.{IsKept}
use ecu_drivers.Nv.Journal.Durable.Appending.{new_entry, last_word}
use ecu_drivers.Nv.Journal.Durable.Seal.{
  blanked, blanked_agrees, blanked-Clean, erased_not_taken, Sealed, Sealed-kept, headed-Clean,
  committed, commit-Clean, committed-Sealed, Sealed-Region,
}
use ecu_drivers.Nv.Journal.Durable.Steps.{erase_region-Ensures, sync-Ensures}

other_twice : (region : ℕ) → region ≤ 1 → other_region (other_region region) ≡ region
other_twice zero h = refl
other_twice (suc zero) h = refl
other_twice (suc (suc n)) h = absurd (omega (arith, h))

-- the two regions lie beside each other
apart :
    (c : Config) (region : ℕ)
    → region ≤ 1
    → (region_start c (other_region region) + c.region_size ≤ region_start c region)
      ⊎ (region_start c region + c.region_size ≤ region_start c (other_region region))
unfolding region_start
apart c zero h = inr (omega arith)
apart c (suc zero) h = inl (omega arith)
apart c (suc (suc n)) h = absurd (omega (arith, h))

region_fits :
    (c : Config) (region : ℕ) → region ≤ 1 → region_start c region + c.region_size ≤ region_end c 1
unfolding region_start region_end
region_fits c zero h = omega arith
region_fits c (suc zero) h = omega arith
region_fits c (suc (suc n)) h = absurd (omega (arith, h))

-- the fields behind a compaction
abbrev pub compacted : Config → JournalMemory → JournalMemory
compacted c m = record m {
  active_region = other_region m.active_region;
  generation = m.generation + 1;
  last_sequence = m.last_sequence + 1;
  append_offset = area_start c (other_region m.active_region) + record_size c c.logical_capacity;
  tail_unusable = false;
}

-- the one entry behind a compaction
abbrev pub snapshot : JournalMemory → Entry
snapshot m = new_entry m 0 m.mirror

module _ {c : Config} (ok : IsConfig c) (xs : List ℕ) (m : JournalMemory) (es : List Entry)
    (k : IsKept c xs m es) where
  pub full_mirror : length m.mirror ≡ c.logical_capacity
  full_mirror =
      ap length k.mirror_is
      ∙ length-replay (fill_erased c.logical_capacity) es
      ∙ length-replicate {A = ℕ} c.logical_capacity 0xFF

  room : record_area_offset c + record_size c (length m.mirror) ≤ c.region_size
  room = omega (arith, ok.room, ap (λ (n : ℕ). record_size c n) full_mirror)

  other_one : other_region m.active_region ≤ 1
  other_one = ground arith

  other_stored : region_start c (other_region m.active_region) + c.region_size ≤ length xs
  other_stored = omega (arith, k.stored, region_fits c (other_region m.active_region) other_one)

  abbrev first : List ℕ
  first = blanked c xs (other_region m.active_region)

  first-Clean : Clean first (region_start c (other_region m.active_region)) c.region_size
  first-Clean = blanked-Clean c xs (other_region m.active_region) other_stored

  first-length : length first ≡ length xs
  first-length = length-store xs _ _

  other_stored_first : region_start c (other_region m.active_region) + c.region_size ≤ length first
  other_stored_first = omega (arith, other_stored, first-length)

  abbrev second : List ℕ
  second =
      store first (region_start c (other_region m.active_region))
        (region_header c (m.generation + 1))

  second-length : length second ≡ length first
  second-length = length-store first _ _

  abbrev moved : JournalMemory → JournalMemory
  moved now = record now {
    active_region = other_region m.active_region;
    generation = m.generation + 1;
    last_sequence = m.last_sequence + 1;
    append_offset = area_start c (other_region m.active_region) + record_size c c.logical_capacity;
    tail_unusable = false;
  }

  Sealed-IsKept :
      (zs : List ℕ)
      → m.last_sequence < u64_max
      → m.generation < u64_max
      → length zs ≡ length xs
      → Sealed ok zs (other_region m.active_region) (m.generation + 1) (snapshot m)
      → IsKept c (blanked c zs m.active_region) (compacted c m) (snapshot m ∷ [])
  unfolding region_end
  Sealed-IsKept zs last_lt generation_lt same s =
      let kept =
        Sealed-kept ok (other_region m.active_region) (m.generation + 1) (snapshot m) room zs
          (blanked c zs m.active_region) _ _ (blanked_agrees c zs m.active_region)
          (apart c m.active_region k.one_of_two) s in
      let longer : length (blanked c zs m.active_region) ≡ length xs = length-store zs _ _ ∙ same in
      record {
        one_of_two = other_one;
        stored = omega (arith, k.stored, longer);
        newest =
            Sealed-Region ok _ _ _ _ kept (omega arith) (omega (arith, generation_lt))
              (record {
                pos = omega (arith, full_mirror, ok.logical_pos);
                inside = omega (arith, full_mirror);
                sequence_word = omega (arith, last_lt);
              })
              (omega arith) (refl, full_mirror)
              (omega
                (arith, longer, k.stored, region_fits c (other_region m.active_region) other_one));
        older = inl (
            subst (λ (r : ℕ). is_taken c (blanked c zs m.active_region) r ≡ false)
              (sym (other_twice m.active_region k.one_of_two))
              (erased_not_taken ok (blanked c zs m.active_region) m.active_region (
                blanked-Clean c zs m.active_region
                  (omega (arith, same, k.stored, region_fits c m.active_region k.one_of_two)))));
        mirror_is = sym (
            store_all (fill_erased c.logical_capacity) m.mirror
              (full_mirror ∙ sym (length-replicate {A = ℕ} c.logical_capacity 0xFF)));
        last_is = refl;
        end_is =
            ap (λ (n : ℕ). area_start c (other_region m.active_region) + record_size c n)
              (sym full_mirror);
        rest = λ _.
            subst
              (λ (n : ℕ).
                Clean (blanked c zs m.active_region)
                  (area_start c (other_region m.active_region) + record_size c n)
                  (region_end c (other_region m.active_region)
                    - (area_start c (other_region m.active_region) + record_size c n)))
              full_mirror kept.rest;
      }

  -- what stands when the commit of the new region is missing
  abbrev Uncommitted : List ℕ → Type 0
  Uncommitted ys =
      (length ys ≡ length second)
      × IsRecord c ys (area_start c (other_region m.active_region)) (snapshot m)
      × AgreeOutside (area_start c (other_region m.active_region)) (record_size c (length m.mirror))
          second ys

  module _ {S : Type 0} {contents : S → List ℕ} (flash : NorFlash S)
      (law : IsLawful contents flash) where
    commit_and_move :
        (ys : List ℕ)
        → m.last_sequence < u64_max
        → m.generation < u64_max
        → Uncommitted ys
        → Ensures
            (Is contents ys m)
            (sync c flash
              >> (write_region_commit c flash (other_region m.active_region) (m.generation + 1)
                  >> (sync c flash >> (assign moved >> erase_region c flash m.active_region))))
            (λ _ w.
              (w.memory ≡ compacted c m)
              × IsKept c (contents w.flash) (compacted c m) (snapshot m ∷ []))
            (λ _ _. Unit)
    unfolding write_region_commit
    commit_and_move ys last_lt generation_lt h =
        >>=-Ensures (λ _. Is contents ys m) (sync-Ensures c flash law)
          (λ _.
            >>=-Ensures (λ _. Is contents zs m)
              (program_array-Ensures contents c flash law _ _
                (rw (length-commit_array c region_commit_magic (m.generation + 1)) (
                  commit-Clean ok (other_region m.active_region) (m.generation + 1) (snapshot m)
                    room first first-Clean other_stored_first ys h.0 h.1 h.2))
                (λ x w same agree. tt))
              (λ _.
                >>=-Ensures (λ _. Is contents zs m) (sync-Ensures c flash law)
                  (λ _. assign_then contents moved (
                    adapt (erase_region-Ensures c flash law m.active_region) (λ w p. p)
                      (λ _ w p. (
                        p.1,
                        subst (λ l. IsKept c l (compacted c m) (snapshot m ∷ [])) (sym p.0)
                            (Sealed-IsKept zs last_lt generation_lt
                              (length-store ys _ _ ∙ h.0 ∙ length-store first _ _ ∙ first-length)
                              (committed-Sealed ok (other_region m.active_region) (m.generation + 1)
                                (snapshot m) room first first-Clean other_stored_first ys h.0 h.1
                                h.2)),
                      ))
                      (λ x w p. tt)))))
      where
        zs : List ℕ
        zs =
            committed ok (other_region m.active_region) (m.generation + 1) (snapshot m) room first
              first-Clean other_stored_first ys h.0 h.1 h.2

    -- Started on a journal that a lawful flash keeps, a compaction that succeeds has moved the object
    -- to the other region, one generation and one number on, where the flash keeps its mirror as the
    -- one entry. Nothing is said of one that fails.
    pub compact-IsKept :
        Ensures
          (Is contents xs m)
          (compact c flash)
          (λ _ w.
            (w.memory ≡ compacted c m)
            × IsKept c (contents w.flash) (compacted c m) (snapshot m ∷ []))
          (λ _ _. Unit)
    unfolding compact write_region_header record_area_offset
    compact-IsKept = get_memory_then contents _ (
        if-Ensures (m.generation == u64_max || m.last_sequence == u64_max)
          (λ _. fail-Ensures _ (λ w h. tt))
          (λ e.
            >>=-Ensures (λ _. Is contents first m) (erase_region-Ensures c flash law _)
              (λ _.
                >>=-Ensures (λ _. Is contents second m)
                  (program_array-Ensures contents c flash law _ _
                    (rw (length-region_header c (m.generation + 1)) (
                      Clean-front first _ c.region_size (region_header_size c) first-Clean
                        (omega (arith, ok.room))))
                    (λ x w same agree. tt))
                  (λ _.
                    >>=-Ensures
                      (λ _.
                        Appended ok flash law second (area_start c (other_region m.active_region))
                          (snapshot m) m)
                      (adapt
                        (write_record-Appended ok flash law second
                          (area_start c (other_region m.active_region)) (snapshot m) m
                          (omega (arith, other_stored, first-length, second-length, room))
                          (headed-Clean ok (other_region m.active_region) (m.generation + 1)
                            (snapshot m) room first first-Clean other_stored_first
                            (record_area_offset c) (record_size c (length m.mirror)) (omega arith)
                            room))
                        (λ w p. p) (λ _ w p. p) (λ x w p. tt))
                      (λ _. at_contents contents m (λ w a. (
                        a.0,
                        commit_and_move (contents w.flash)
                            (ground (arith, e, last_word c xs m es k))
                            (ground (arith, e, k.newest.generation_word)) (a.1, a.2, a.3),
                      )))))))
