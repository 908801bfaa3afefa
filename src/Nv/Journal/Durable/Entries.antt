-- ===== src/Nv/Journal/Durable/Entries.antt =====
-- The abstract journal: entries, each a run of bytes written at a place of the memory, and how a
-- region keeps them as a chain of records.
use ecu_drivers.Prelude.{
  ℕ, ◌+◌, ◌≤◌, ◌<◌, ◌^◌, ◌≡◌, refl, ◌∙◌, List, [], ◌∷◌, ◌++◌, arith, length, slice, store,
  length-store,
}
use ecu_drivers.Foundation.Crc32.{crc32_of}
use ecu_drivers.Nv.Journal.Layout.{
  Config, IsConfig, io_unit, journal_align_up, record_header_size, commit_size, record_size,
}
use ecu_drivers.Nv.Journal.Layout.Sizes.{record_size-ge}
use ecu_drivers.Nv.Journal.Headers.{record_header, commit_array, record_commit_magic}

pub record Entry : Type 0 where
  pub sequence : ℕ
  pub location : ℕ
  pub payload : List ℕ

-- the memory behind all entries
abbrev pub replay : List ℕ → List Entry → List ℕ
replay bytes [] = bytes
replay bytes (e ∷ es) = replay (store bytes e.location e.payload) es

-- the sequence number of the last entry
abbrev pub last_of : ℕ → List Entry → ℕ
last_of sequence [] = sequence
last_of sequence (e ∷ es) = last_of e.sequence es

module _ (c : Config) where
  -- where the record behind all entries goes
  abbrev pub end_of : ℕ → List Entry → ℕ
  end_of offset [] = offset
  end_of offset (e ∷ es) = end_of (offset + record_size c (length e.payload)) es

  -- an entry that `write` and `compact` can make: not empty, inside the memory, numbers in range
  pub record IsEntry (e : Entry) : Type 0 where
    pub pos : 0 < length e.payload
    pub inside : e.location + length e.payload ≤ c.logical_capacity
    pub sequence_word : e.sequence < 2 ^ 64

  -- The three parts of the record of an entry stand at `offset`.
  pub record IsRecord (xs : List ℕ) (offset : ℕ) (e : Entry) : Type 0 where
    pub header_at :
        slice xs offset (record_header_size c)
        ≡ record_header c e.sequence e.location (length e.payload) (crc32_of e.payload)
    pub payload_at : slice xs (offset + record_header_size c) (length e.payload) ≡ e.payload
    pub commit_at :
        slice xs
          (offset + record_header_size c + journal_align_up (length e.payload) (io_unit c))
          (commit_size c)
        ≡ commit_array c record_commit_magic e.sequence

  -- The entries stand one behind the other from `offset` on, with growing numbers above `sequence`.
  abbrev pub Kept : List ℕ → ℕ → ℕ → List Entry → Type 0
  Kept xs offset sequence [] = Unit
  Kept xs offset sequence (e ∷ es) =
      IsEntry e
      × (sequence < e.sequence)
      × IsRecord xs offset e
      × Kept xs (offset + record_size c (length e.payload)) e.sequence es

  pub end_of-ge : (offset : ℕ) (es : List Entry) → offset ≤ end_of offset es
  end_of-ge offset [] = omega arith
  end_of-ge offset (e ∷ es) =
      omega (arith, end_of-ge (offset + record_size c (length e.payload)) es)

  -- What stands in front of `limit` is the same.
  abbrev pub SameBefore : ℕ → List ℕ → List ℕ → Type 0
  SameBefore limit xs ys = (j n : ℕ) → j + n ≤ limit → slice ys j n ≡ slice xs j n

  module _ (ok : IsConfig c) where
    IsRecord-same :
        (xs ys : List ℕ) (limit offset : ℕ) (e : Entry)
        → SameBefore limit xs ys
        → offset + record_size c (length e.payload) ≤ limit
        → IsRecord xs offset e
        → IsRecord ys offset e
    unfolding record_size
    IsRecord-same xs ys limit offset e same h r = record {
      header_at = same offset (record_header_size c) (omega (arith, h)) ∙ r.header_at;
      payload_at =
          same (offset + record_header_size c) (length e.payload)
            (omega (arith, h, record_size-ge ok (length e.payload)))
          ∙ r.payload_at;
      commit_at =
          same (offset + record_header_size c + journal_align_up (length e.payload) (io_unit c))
            (commit_size c) (omega (arith, h))
          ∙ r.commit_at;
    }

    -- A chain stands as long as nothing in front of its end changes.
    pub Kept-same :
        (xs ys : List ℕ) (limit offset sequence : ℕ) (es : List Entry)
        → SameBefore limit xs ys
        → end_of offset es ≤ limit
        → Kept xs offset sequence es
        → Kept ys offset sequence es
    Kept-same xs ys limit offset sequence [] same h k = tt
    Kept-same xs ys limit offset sequence (e ∷ es) same h k = (
      k.0,
      k.1,
      IsRecord-same xs ys limit offset e same
          (omega (arith, h, end_of-ge (offset + record_size c (length e.payload)) es)) k.2,
      Kept-same xs ys limit (offset + record_size c (length e.payload)) e.sequence es same h k.3,
    )

  -- A record behind a chain makes it longer.
  pub Kept-snoc :
      (xs : List ℕ) (offset sequence : ℕ) (es : List Entry) (e : Entry)
      → Kept xs offset sequence es
      → IsEntry e
      → last_of sequence es < e.sequence
      → IsRecord xs (end_of offset es) e
      → Kept xs offset sequence (es ++ (e ∷ []))
  Kept-snoc xs offset sequence [] e k h l r = (h, l, r, tt)
  Kept-snoc xs offset sequence (x ∷ es) e k h l r = (
    k.0,
    k.1,
    k.2,
    Kept-snoc xs (offset + record_size c (length x.payload)) x.sequence es e k.3 h l r,
  )

  pub end_of-snoc :
      (offset : ℕ) (es : List Entry) (e : Entry)
      → end_of offset (es ++ (e ∷ [])) ≡ end_of offset es + record_size c (length e.payload)
  end_of-snoc offset [] e = refl
  end_of-snoc offset (x ∷ es) e = end_of-snoc (offset + record_size c (length x.payload)) es e

pub last_of-snoc :
    (sequence : ℕ) (es : List Entry) (e : Entry) → last_of sequence (es ++ (e ∷ [])) ≡ e.sequence
last_of-snoc sequence [] e = refl
last_of-snoc sequence (x ∷ es) e = last_of-snoc x.sequence es e

pub replay-snoc :
    (bytes : List ℕ) (es : List Entry) (e : Entry)
    → replay bytes (es ++ (e ∷ [])) ≡ store (replay bytes es) e.location e.payload
replay-snoc bytes [] e = refl
replay-snoc bytes (x ∷ es) e = replay-snoc (store bytes x.location x.payload) es e

pub length-replay : (bytes : List ℕ) (es : List Entry) → length (replay bytes es) ≡ length bytes
length-replay bytes [] = refl
length-replay bytes (e ∷ es) =
    length-replay (store bytes e.location e.payload) es ∙ length-store bytes e.location e.payload
