-- ===== src/Nv/Journal/Durable/Region.antt =====
-- A region that keeps a journal: its header, its commit, its chain of records and how that ends,
-- and what inspecting and loading it gives.
use ecu_drivers.Prelude.{
  ℕ, zero, suc, ◌+◌, ◌≤◌, ◌<◌, ◌^◌, ◌≡◌, refl, ◌∙◌, sym, ap, ◌⊎◌, inl, inr, Bool, true, false, ◌&&◌,
  List, [], ◌∷◌, ◌==◌, ==_self, ltb, arith, length, slice,
}
use ecu_drivers.Foundation.Action.Rules.{Ensures, pure-Ensures, >>=-Ensures, if-Ensures, adapt}
use ecu_drivers.Nv.Contract.{NorFlash}
use ecu_drivers.Nv.Lawful.{IsLawful}
use ecu_drivers.Nv.Journal.Bytes.{fill_erased, all_erased, get_u64}
use ecu_drivers.Nv.Journal.Layout.{
  Config, IsConfig, io_unit, region_header_size, commit_size, record_size, record_area_offset,
  region_end, region_start,
}
use ecu_drivers.Nv.Journal.Layout.Sizes.{record_size-ge, headers_fit}
use ecu_drivers.Nv.Journal.Headers.{
  region_header, region_header_valid, region_commit_valid, region_commit_magic, commit_array,
}
use ecu_drivers.Nv.Journal.Headers.Accept.{commit_array_accepted, region_header_accepted}
use ecu_drivers.Nv.Journal.Monad.{JournalMemory}
use ecu_drivers.Nv.Journal.Recover.{
  RegionInfo, erased_loop, region_is_erased, inspect_region, load_active_region,
}
use ecu_drivers.Nv.Journal.Durable.Rules.{Is, FlashFails, read_then, get_memory_then, assign_then}
use ecu_drivers.Nv.Journal.Durable.Entries.{Entry, Kept, end_of, last_of, replay}
use ecu_drivers.Nv.Journal.Durable.Load.{Tail, StartsWhole, load_loop-Ensures}

module _ (c : Config) where
  -- where the first record of a region goes
  abbrev pub area_start : ℕ → ℕ
  area_start region = region_start c region + record_area_offset c

  abbrev pub header_of : List ℕ → ℕ → List ℕ
  header_of xs region = slice xs (region_start c region) (region_header_size c)

  abbrev pub commit_of : List ℕ → ℕ → List ℕ
  commit_of xs region = slice xs (region_start c region + region_header_size c) (commit_size c)

  -- whether `inspect_region` takes the region
  abbrev pub is_taken : List ℕ → ℕ → Bool
  is_taken xs region =
      region_header_valid c (header_of xs region)
      && region_commit_valid (commit_of xs region) (get_u64 (header_of xs region) 8)

  -- A committed region of a generation that keeps these entries.
  pub record Region (xs : List ℕ) (region generation : ℕ) (es : List Entry) : Type 0 where
    pub generation_pos : 0 < generation
    pub generation_word : generation < 2 ^ 64
    pub header_at : header_of xs region ≡ region_header c generation
    pub commit_at : commit_of xs region ≡ commit_array c region_commit_magic generation
    pub chain : Kept c xs (area_start region) 0 es
    pub inside : end_of c (area_start region) es ≤ region_end c region
    pub stored : region_end c region ≤ length xs
    pub whole : (generation ≡ 1) ⊎ StartsWhole c es

  -- The other region is not valid, or its generation is smaller.
  abbrev pub IsOlder : List ℕ → ℕ → ℕ → Type 0
  IsOlder xs region generation =
      (is_taken xs region ≡ false) ⊎ (get_u64 (header_of xs region) 8 < generation)

  -- what recovery makes of a region
  abbrev pub recovered : ℕ → ℕ → List Entry → Bool → JournalMemory
  recovered region generation es unusable = record {
    mirror = replay (fill_erased c.logical_capacity) es;
    generation = generation;
    last_sequence = last_of 0 es;
    append_offset = end_of c (area_start region) es;
    active_region = region;
    tail_unusable = unusable;
  }

  -- what `inspect_region` says of a region
  abbrev pub Tells : List ℕ → ℕ → RegionInfo → Type 0
  Tells xs region info =
      (info.is_valid ≡ is_taken xs region)
      × (info.is_valid ≡ true → info.generation ≡ get_u64 (header_of xs region) 8)

module _ {c : Config} (ok : IsConfig c) where
  pub end_of-length : (offset : ℕ) (es : List Entry) → offset + length es ≤ end_of c offset es
  end_of-length offset [] = omega arith
  end_of-length offset (e ∷ es) = omega (
    arith,
    end_of-length (offset + record_size c (length e.payload)) es,
    record_size-ge ok (length e.payload),
    headers_fit ok,
  )

  pub Region-taken :
      (xs : List ℕ) (region generation : ℕ) (es : List Entry)
      → Region c xs region generation es
      → (is_taken c xs region ≡ true) × (get_u64 (header_of c xs region) 8 ≡ generation)
  Region-taken xs region generation es r =
      let accepted = region_header_accepted ok generation r.generation_pos r.generation_word in
      let committed =
        commit_array_accepted ok region_commit_magic generation generation (omega arith)
          r.generation_word in
      rw (r.header_at, r.commit_at, accepted.0, accepted.1, committed, ==_self generation)
        (refl, refl)

  module _ {S : Type 0} {contents : S → List ℕ} (flash : NorFlash S) (law : IsLawful contents flash)
      (xs : List ℕ) (m : JournalMemory) where
    erased_loop-Ensures :
        (fuel offset stop : ℕ)
        → Ensures
            (Is contents xs m)
            (erased_loop c flash fuel offset stop)
            (λ _. Is contents xs m)
            (FlashFails contents xs)
    unfolding erased_loop
    erased_loop-Ensures zero offset stop = pure-Ensures _ true (λ w h. h)
    erased_loop-Ensures (suc fuel) offset stop =
        if-Ensures (ltb offset stop)
          (λ _.
            read_then contents c flash law _ _ _ (λ x w k. k)
              (if-Ensures (all_erased (slice xs offset (io_unit c)))
                (λ _. erased_loop-Ensures fuel (offset + io_unit c) stop)
                (λ _. pure-Ensures _ false (λ w h. h))))
          (λ _. pure-Ensures _ true (λ w h. h))

    pub inspect_region-Ensures :
        (region : ℕ)
        → Ensures
            (Is contents xs m)
            (inspect_region c flash region)
            (λ info w. Tells c xs region info × Is contents xs m w)
            (FlashFails contents xs)
    unfolding inspect_region region_is_erased
    inspect_region-Ensures region =
        read_then contents c flash law _ _ _ (λ x w k. k)
          (read_then contents c flash law _ _ _ (λ x w k. k)
            (if-Ensures (is_taken c xs region)
              (λ e. pure-Ensures _ _ (λ w h. ((sym e, λ _. refl), h)))
              (λ e.
                >>=-Ensures (λ _. Is contents xs m)
                  (erased_loop-Ensures c.region_size (region_start c region) (region_end c region))
                  (λ erased.
                    pure-Ensures _ _
                      (λ w h. ((sym e, λ bad. absurd (let f : false ≡ true = bad in cc)), h))))))

    pub load_active_region-Ensures :
        (es : List Entry) (unusable : Bool)
        → Region c xs m.active_region m.generation es
        → Tail c xs
            (end_of c (area_start c m.active_region) es)
            (region_end c m.active_region)
            unusable
        → length m.mirror ≡ c.logical_capacity
        → Ensures
            (Is contents xs m)
            (load_active_region c flash)
            (λ _. Is contents xs (recovered c m.active_region m.generation es unusable))
            (FlashFails contents xs)
    unfolding load_active_region record_area_offset region_end
    load_active_region-Ensures es unusable r tail sized = assign_then contents _ (
        get_memory_then contents _ (
          adapt
            (load_loop-Ensures ok flash law xs es c.region_size (m.generation == 1) unusable _
              r.chain tail r.inside r.stored (whole r.whole) enough)
            (λ w h. h) (λ _ w h. (h.0, h.1 ∙ ap (λ (n : ℕ). from (fill_erased n)) sized))
            (λ x w h. h)))
      where
        from : List ℕ → JournalMemory
        from bytes = record {
          mirror = replay bytes es;
          generation = m.generation;
          last_sequence = last_of 0 es;
          append_offset = end_of c (area_start c m.active_region) es;
          active_region = m.active_region;
          tail_unusable = unusable;
        }

        whole :
            (m.generation ≡ 1) ⊎ StartsWhole c es → ((m.generation == 1) ≡ true) ⊎ StartsWhole c es
        whole (inl e) = inl (ground (arith, e))
        whole (inr s) = inr s

        enough : length es < c.region_size
        enough =
            omega (arith, end_of-length (area_start c m.active_region) es, r.inside, headers_fit ok)
