-- ===== src/Nv/Journal/Durable/State.antt =====
-- A mounted journal and the flash that keeps it: the fields are what recovery would make of it.
use ecu_drivers.Prelude.{
  ℕ, ◌+◌, ◌-◌, ◌≤◌, ◌<◌, ◌≡◌, ◌∙◌, sym, ap, subst, ◌⊎◌, inl, inr, Bool, false, not, List, [], ◌∷◌,
  ◌++◌, leb, Bool-cases, arith, length,
}
use ecu_drivers.Nv.Lawful.{AgreeOutside}
use ecu_drivers.Nv.Journal.Bytes.{fill_erased}
use ecu_drivers.Nv.Journal.Layout.{
  Config, IsConfig, record_header_size, region_header_size, commit_size, record_size,
  record_area_offset, region_end, region_start,
}
use ecu_drivers.Nv.Journal.Monad.{JournalMemory}
use ecu_drivers.Nv.Journal.Durable.Entries.{
  Entry, IsEntry, IsRecord, Kept-same, Kept-snoc, end_of, end_of-ge, end_of-snoc, last_of, replay,
}
use ecu_drivers.Nv.Journal.Durable.Load.{Tail, StartsWhole}
use ecu_drivers.Nv.Journal.Durable.Changes.{Clean, Clean-front}
use ecu_drivers.Nv.Journal.Durable.Region.{Region, IsOlder, area_start, recovered}
use ecu_drivers.Nv.Journal.Durable.Recovery.{Keeps, other_region}

pub record IsKept (c : Config) (xs : List ℕ) (m : JournalMemory) (es : List Entry) : Type 0 where
  pub one_of_two : m.active_region ≤ 1
  pub stored : region_end c 1 ≤ length xs
  pub newest : Region c xs m.active_region m.generation es
  pub older : IsOlder c xs (other_region m.active_region) m.generation
  pub mirror_is : m.mirror ≡ replay (fill_erased c.logical_capacity) es
  pub last_is : m.last_sequence ≡ last_of 0 es
  pub end_is : m.append_offset ≡ end_of c (area_start c m.active_region) es
  -- as long as the tail is usable, the rest of the region is erased
  pub rest :
      m.tail_unusable ≡ false
      → Clean xs m.append_offset (region_end c m.active_region - m.append_offset)

-- whether another record has no room even for its header and commit
abbrev pub is_full : Config → JournalMemory → Bool
is_full c m =
    not
      (leb (m.append_offset + record_header_size c + commit_size c) (region_end c m.active_region))

module _ (c : Config) where
  Tail-of :
      (xs : List ℕ) (offset stop : ℕ)
      → Clean xs offset (stop - offset)
      → Tail c xs offset stop (not (leb (offset + record_header_size c + commit_size c) stop))
  Tail-of xs offset stop h =
      elim (Bool-cases (leb (offset + record_header_size c + commit_size c) stop)) [
        | inl fits ↦ rw fits (
          ground (arith, fits),
          Clean-front xs offset (stop - offset) (record_header_size c) h (ground (arith, fits)),
        )
        | inr full ↦ rw full (ground (arith, full))
      ]

  pub IsKept-Keeps :
      (xs : List ℕ) (m : JournalMemory) (es : List Entry)
      → IsKept c xs m es
      → m.tail_unusable ≡ false
      → Keeps c xs m.active_region m.generation es (is_full c m)
  IsKept-Keeps xs m es k usable = record {
    one_of_two = k.one_of_two;
    newest = k.newest;
    older = k.older;
    tail =
        subst (λ (o : ℕ). Tail c xs o (region_end c m.active_region) (is_full c m)) k.end_is
          (Tail-of xs m.append_offset (region_end c m.active_region) (k.rest usable));
  }

  pub IsKept-recovered :
      (xs : List ℕ) (m : JournalMemory) (es : List Entry)
      → IsKept c xs m es
      → recovered c m.active_region m.generation es (is_full c m)
        ≡ record m { tail_unusable = is_full c m }
  IsKept-recovered xs m es k =
      ap (λ l. from l (last_of 0 es) (end_of c (area_start c m.active_region) es)) (sym k.mirror_is)
      ∙ ap (λ (n : ℕ). from m.mirror n (end_of c (area_start c m.active_region) es)) (sym k.last_is)
      ∙ ap (λ (n : ℕ). from m.mirror m.last_sequence n) (sym k.end_is)
    where
      from : List ℕ → ℕ → ℕ → JournalMemory
      from bytes last next = record {
        mirror = bytes;
        generation = m.generation;
        last_sequence = last;
        append_offset = next;
        active_region = m.active_region;
        tail_unusable = is_full c m;
      }

module _ {c : Config} (ok : IsConfig c) (xs ys : List ℕ) (offset size : ℕ)
    (agree : AgreeOutside offset size xs ys) where
  -- A change inside one region leaves the head of the other as it is.
  pub IsOlder-kept :
      (region generation : ℕ)
      → (region_start c region + record_area_offset c ≤ offset)
        ⊎ (offset + size ≤ region_start c region)
      → IsOlder c xs region generation
      → IsOlder c ys region generation
  unfolding record_area_offset
  IsOlder-kept region generation (inl away) h =
      rw
        (
          agree (region_start c region) (region_header_size c) (inl (omega arith)),
          agree (region_start c region + region_header_size c) (commit_size c) (inl (omega arith)),
        )
        h
  IsOlder-kept region generation (inr away) h =
      rw
        (
          agree (region_start c region) (region_header_size c) (inr (omega arith)),
          agree (region_start c region + region_header_size c) (commit_size c) (inr (omega arith)),
        )
        h

StartsWhole-snoc :
    (c : Config) (es : List Entry) (e : Entry) → StartsWhole c es → StartsWhole c (es ++ (e ∷ []))
StartsWhole-snoc c [] e none = elim none [ ]
StartsWhole-snoc c (x ∷ es) e h = h

module _ {c : Config} (ok : IsConfig c) (xs ys : List ℕ) (region generation : ℕ) (es : List Entry)
    (e : Entry) where
  -- A record behind the last one is one more entry of the region.
  pub Region-snoc :
      Region c xs region generation es
      → length ys ≡ length xs
      → AgreeOutside (end_of c (area_start c region) es) (record_size c (length e.payload)) xs ys
      → IsRecord c ys (end_of c (area_start c region) es) e
      → IsEntry c e
      → last_of 0 es < e.sequence
      → end_of c (area_start c region) es + record_size c (length e.payload) ≤ region_end c region
      → Region c ys region generation (es ++ (e ∷ []))
  unfolding record_area_offset
  Region-snoc r same agree stands valid grows fits = record {
    generation_pos = r.generation_pos;
    generation_word = r.generation_word;
    header_at = agree _ _ (inl (omega (arith, far))) ∙ r.header_at;
    commit_at = agree _ _ (inl (omega (arith, far))) ∙ r.commit_at;
    chain =
        Kept-snoc c ys (area_start c region) 0 es e
          (Kept-same c ok xs ys (end_of c (area_start c region) es) (area_start c region) 0 es
            (λ j n o. agree j n (inl o)) (omega arith) r.chain)
          valid grows stands;
    inside = omega (arith, end_of-snoc c (area_start c region) es e, fits);
    stored = omega (arith, same, r.stored);
    whole = still r.whole;
  }
    where
      far : area_start c region ≤ end_of c (area_start c region) es
      far = end_of-ge c (area_start c region) es

      still :
          (generation ≡ 1) ⊎ StartsWhole c es → (generation ≡ 1) ⊎ StartsWhole c (es ++ (e ∷ []))
      still (inl first) = inl first
      still (inr s) = inr (StartsWhole-snoc c es e s)
