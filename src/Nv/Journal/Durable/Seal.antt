-- ===== src/Nv/Journal/Durable/Seal.antt =====
-- A region made anew: erased, headed, given one record, and committed.
use ecu_drivers.Prelude.{
  ℕ, ◌+◌, ◌-◌, ◌≤◌, ◌<◌, ◌^◌, ◌≡◌, ◌∙◌, sym, ap, subst, ◌⊎◌, inl, inr, false, List, [], ◌∷◌, arith,
  length, slice, slice-store, store, length-store, replicate, length-replicate,
}
use ecu_drivers.Nv.Lawful.{AgreeOutside}
use ecu_drivers.Nv.Journal.Bytes.Fields.{get_u32-erased}
use ecu_drivers.Nv.Journal.Layout.{
  Config, IsConfig, io_unit, region_header_size, commit_size, record_size, record_area_offset,
  region_end, region_start,
}
use ecu_drivers.Nv.Journal.Layout.Sizes.{headers_fit, io_unit_lem, journal_align_up_lem}
use ecu_drivers.Nv.Journal.Headers.{
  region_header, region_header_valid, region_commit_magic, commit_array,
}
use ecu_drivers.Nv.Journal.Durable.Entries.{Entry, IsEntry, IsRecord}
use ecu_drivers.Nv.Journal.Durable.Changes.{
  Clean, Clean-front, Clean-part, Clean-kept, AgreeOutside-store,
}
use ecu_drivers.Nv.Journal.Durable.Append.{length-region_header, length-commit_array}
use ecu_drivers.Nv.Journal.Durable.Region.{Region, area_start, header_of, commit_of, is_taken}

-- the contents behind an erased region
abbrev pub blanked : Config → List ℕ → ℕ → List ℕ
blanked c xs region = store xs (region_start c region) (replicate c.region_size 0xFF)

module _ (c : Config) (xs : List ℕ) (region : ℕ) where
  pub blanked_agrees : AgreeOutside (region_start c region) c.region_size xs (blanked c xs region)
  blanked_agrees =
      subst (λ (n : ℕ). AgreeOutside (region_start c region) n xs (blanked c xs region))
        (length-replicate {A = ℕ} c.region_size 0xFF)
        (AgreeOutside-store xs (region_start c region) (replicate c.region_size 0xFF))

  pub blanked-Clean :
      region_start c region + c.region_size ≤ length xs
      → Clean (blanked c xs region) (region_start c region) c.region_size
  blanked-Clean h =
      ap (λ (n : ℕ). slice (blanked c xs region) (region_start c region) n)
        (sym (length-replicate {A = ℕ} c.region_size 0xFF))
      ∙ slice-store xs (region_start c region) (replicate c.region_size 0xFF)
          (omega (arith, h, length-replicate {A = ℕ} c.region_size 0xFF))

-- What is apart from a change stays, with each of its parts.
within :
    (j n offset size j' n' : ℕ)
    → (j + n ≤ offset) ⊎ (offset + size ≤ j)
    → j ≤ j'
    → j' + n' ≤ j + n
    → (j' + n' ≤ offset) ⊎ (offset + size ≤ j')
within j n offset size j' n' (inl h) p q = inl (omega (arith, h, q))
within j n offset size j' n' (inr h) p q = inr (omega (arith, h, p))

module _ {c : Config} (ok : IsConfig c) where
  -- An erased region is not taken.
  pub erased_not_taken :
      (xs : List ℕ) (region : ℕ)
      → Clean xs (region_start c region) c.region_size
      → is_taken c xs region ≡ false
  unfolding region_header_valid record_area_offset
  erased_not_taken xs region h =
      let erased : header_of c xs region ≡ replicate (region_header_size c) 0xFF =
        Clean-front xs (region_start c region) c.region_size (region_header_size c) h
          (omega (arith, ok.room)) in
      let front = get_u32-erased (region_header_size c) (omega (arith, headers_fit ok)) in
      rw erased (ground (arith, front))

  module _ (xs ys : List ℕ) (offset size : ℕ) (agree : AgreeOutside offset size xs ys) where
    pub IsRecord-kept :
        (at : ℕ) (e : Entry)
        → (at + record_size c (length e.payload) ≤ offset) ⊎ (offset + size ≤ at)
        → IsRecord c xs at e
        → IsRecord c ys at e
    unfolding record_size
    IsRecord-kept at e away r = record {
      header_at = agree _ _ (within _ _ _ _ _ _ away (omega arith) (omega arith)) ∙ r.header_at;
      payload_at =
          agree _ _ (
            within _ _ _ _ _ _ away (omega arith) (
              omega (
                arith,
                (journal_align_up_lem (length e.payload) (io_unit c) (io_unit_lem ok).0).0,
              )))
          ∙ r.payload_at;
      commit_at = agree _ _ (within _ _ _ _ _ _ away (omega arith) (omega arith)) ∙ r.commit_at;
    }

  -- A committed region with one record, and erased behind it.
  pub record Sealed (xs : List ℕ) (region generation : ℕ) (e : Entry) : Type 0 where
    pub header_at : header_of c xs region ≡ region_header c generation
    pub commit_at : commit_of c xs region ≡ commit_array c region_commit_magic generation
    pub record_at : IsRecord c xs (area_start c region) e
    pub rest :
        Clean xs
          (area_start c region + record_size c (length e.payload))
          (region_end c region - (area_start c region + record_size c (length e.payload)))

  module _ (region generation : ℕ) (e : Entry)
      (room : record_area_offset c + record_size c (length e.payload) ≤ c.region_size) where
    pub Sealed-kept :
        (xs ys : List ℕ) (offset size : ℕ)
        → AgreeOutside offset size xs ys
        → (region_start c region + c.region_size ≤ offset) ⊎ (offset + size ≤ region_start c region)
        → Sealed xs region generation e
        → Sealed ys region generation e
    unfolding record_area_offset region_end
    Sealed-kept xs ys offset size agree away s = record {
      header_at =
          agree _ _ (within _ _ _ _ _ _ away (omega arith) (omega (arith, room))) ∙ s.header_at;
      commit_at =
          agree _ _ (within _ _ _ _ _ _ away (omega arith) (omega (arith, room))) ∙ s.commit_at;
      record_at =
          IsRecord-kept xs ys offset size agree (area_start c region) e
            (within _ _ _ _ _ _ away (omega arith) (omega (arith, room))) s.record_at;
      rest = agree _ _ (within _ _ _ _ _ _ away (omega arith) (omega (arith, room))) ∙ s.rest;
    }

    -- From an erased region to a sealed one: the header, the record, the commit.
    module _ (xs : List ℕ) (blank : Clean xs (region_start c region) c.region_size)
        (stored : region_start c region + c.region_size ≤ length xs) where
      abbrev pub headed : List ℕ
      headed = store xs (region_start c region) (region_header c generation)

      head_agrees : AgreeOutside (region_start c region) (region_header_size c) xs headed
      head_agrees =
          subst (λ (n : ℕ). AgreeOutside (region_start c region) n xs headed)
            (length-region_header c generation)
            (AgreeOutside-store xs (region_start c region) (region_header c generation))

      pub headed-Clean :
          (d n : ℕ)
          → region_header_size c ≤ d
          → d + n ≤ c.region_size
          → Clean headed (region_start c region + d) n
      headed-Clean d n far fits =
          Clean-kept xs headed _ _ _ _ head_agrees (inr (omega (arith, far)))
            (Clean-part xs (region_start c region) c.region_size d n blank fits)

      module _ (ys : List ℕ) (same : length ys ≡ length headed)
          (stands : IsRecord c ys (area_start c region) e)
          (agree : AgreeOutside
            (area_start c region)
            (record_size c (length e.payload))
            headed
            ys) where
        abbrev pub committed : List ℕ
        committed =
            store ys (region_start c region + region_header_size c)
              (commit_array c region_commit_magic generation)

        pub commit-Clean : Clean ys (region_start c region + region_header_size c) (commit_size c)
        unfolding record_area_offset
        commit-Clean = Clean-kept headed ys _ _ _ _ agree (inl (omega arith)) (
            headed-Clean (region_header_size c) (commit_size c) (omega arith) (omega (arith, room)))

        commit_agrees :
            AgreeOutside (region_start c region + region_header_size c) (commit_size c) ys committed
        commit_agrees =
            subst
              (λ (n : ℕ).
                AgreeOutside (region_start c region + region_header_size c) n ys committed)
              (length-commit_array c region_commit_magic generation)
              (AgreeOutside-store ys (region_start c region + region_header_size c)
                (commit_array c region_commit_magic generation))

        pub committed-Sealed : Sealed committed region generation e
        unfolding record_area_offset region_end
        committed-Sealed = record {
          header_at =
              commit_agrees _ _ (inl (omega arith))
              ∙ agree _ _ (inl (omega arith))
              ∙ ap (λ (n : ℕ). slice headed (region_start c region) n)
                  (sym (length-region_header c generation))
              ∙ slice-store xs (region_start c region) (region_header c generation)
                  (omega (arith, length-region_header c generation, stored, room));
          commit_at =
              ap (λ (n : ℕ). slice committed (region_start c region + region_header_size c) n)
                (sym (length-commit_array c region_commit_magic generation))
              ∙ slice-store ys (region_start c region + region_header_size c)
                  (commit_array c region_commit_magic generation)
                  (omega (
                    arith,
                    length-commit_array c region_commit_magic generation,
                    same,
                    length-store xs (region_start c region) (region_header c generation),
                    stored,
                    room,
                  ));
          record_at =
              IsRecord-kept ys committed _ _ commit_agrees (area_start c region) e
                (inr (omega arith)) stands;
          rest = Clean-kept ys committed _ _ _ _ commit_agrees (inr (omega arith)) (
              Clean-kept headed ys _ _ _ _ agree (inr (omega arith)) (
                subst (λ (o : ℕ). Clean headed o left)
                  (let same : region_start c region
                          + (record_area_offset c + record_size c (length e.payload))
                        ≡ area_start c region + record_size c (length e.payload) =
                      omega arith in
                    same)
                  (headed-Clean (record_area_offset c + record_size c (length e.payload)) left
                    (omega arith) (omega (arith, room)))));
        }
          where
            left : ℕ
            left = region_end c region - (area_start c region + record_size c (length e.payload))

  pub Sealed-Region :
      (xs : List ℕ) (region generation : ℕ) (e : Entry)
      → Sealed xs region generation e
      → 0 < generation
      → generation < 2 ^ 64
      → IsEntry c e
      → 0 < e.sequence
      → (e.location ≡ 0) × (length e.payload ≡ c.logical_capacity)
      → region_end c region ≤ length xs
      → Region c xs region generation (e ∷ [])
  unfolding region_end
  Sealed-Region xs region generation e s pos word valid first whole stored = record {
    generation_pos = pos;
    generation_word = word;
    header_at = s.header_at;
    commit_at = s.commit_at;
    chain = (valid, first, s.record_at, tt);
    inside = omega (arith, ok.room, ap (λ (n : ℕ). record_size c n) whole.1);
    stored = stored;
    whole = inr whole;
  }
