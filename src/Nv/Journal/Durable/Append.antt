-- ===== src/Nv/Journal/Durable/Append.antt =====
-- A record that is written where the flash is erased stands there, and nothing else has changed.
use ecu_drivers.Prelude.{
  ℕ, ◌+◌, ◌≤◌, ◌≡◌, refl, ◌∙◌, sym, ap, subst, inl, inr, List, arith, length, slice, slice-store,
  store, length-replicate, length-store,
}
use ecu_drivers.Foundation.Crc32.{crc32_of}
use ecu_drivers.Foundation.Action.Rules.{Ensures, >>=-Ensures, adapt}
use ecu_drivers.Nv.Contract.{NorFlash}
use ecu_drivers.Nv.Lawful.{IsLawful, AgreeOutside}
use ecu_drivers.Nv.Journal.Error.{JournalError}
use ecu_drivers.Nv.Journal.Bytes.{put_u16, put_u32, put_u64}
use ecu_drivers.Nv.Journal.Layout.{
  Config, IsConfig, io_unit, journal_align_up, record_header_size, commit_size, record_size,
  region_header_size,
}
use ecu_drivers.Nv.Journal.Layout.Sizes.{io_unit_lem, journal_align_up_lem}
use ecu_drivers.Nv.Journal.Headers.{record_header, commit_array, record_commit_magic, region_header}
use ecu_drivers.Nv.Journal.Monad.{JournalMemory, World, JournalAction}
use ecu_drivers.Nv.Journal.Storage.{program_array, write_record}
use ecu_drivers.Nv.Journal.Durable.Rules.{Is, program_array-Ensures}
use ecu_drivers.Nv.Journal.Durable.Entries.{Entry, IsRecord}
use ecu_drivers.Nv.Journal.Durable.Changes.{
  Clean, Clean-front, Clean-part, Clean-kept, AgreeOutside-wider, AgreeOutside-trans,
  AgreeOutside-store,
}
use ecu_drivers.Nv.Journal.Durable.Program.{Spoils, Written, write_chunks-Ensures}

module _ (c : Config) where
  pub length-record_header :
      (sequence location size crc : ℕ)
      → length (record_header c sequence location size crc) ≡ record_header_size c
  unfolding record_header put_u16 put_u32 put_u64
  length-record_header sequence location size crc =
      length-store _ 36 _
      ∙ length-store _ 32 _
      ∙ length-store _ 24 _
      ∙ length-store _ 16 _
      ∙ length-store _ 8 _
      ∙ length-store _ 6 _
      ∙ length-store _ 4 _
      ∙ length-store _ 0 _
      ∙ length-replicate (record_header_size c) 0xFF

  pub length-region_header :
      (generation : ℕ) → length (region_header c generation) ≡ region_header_size c
  unfolding region_header put_u16 put_u32 put_u64
  length-region_header generation =
      length-store _ 32 _
      ∙ length-store _ 24 _
      ∙ length-store _ 16 _
      ∙ length-store _ 8 _
      ∙ length-store _ 6 _
      ∙ length-store _ 4 _
      ∙ length-store _ 0 _
      ∙ length-replicate (region_header_size c) 0xFF

  pub length-commit_array :
      (magic number : ℕ) → length (commit_array c magic number) ≡ commit_size c
  unfolding commit_array put_u32 put_u64
  length-commit_array magic number =
      length-store _ 12 _
      ∙ length-store _ 4 _
      ∙ length-store _ 0 _
      ∙ length-replicate (commit_size c) 0xFF

-- The contents that a call has left are those that the next one finds.
pub at_contents :
    {S B : Type 0} (contents : S → List ℕ) (m : JournalMemory) {P : World S → Type 0}
    {f : JournalAction S B} {R : B → World S → Type 0} {F : JournalError → World S → Type 0}
    → ((w : World S) → P w → (w.memory ≡ m) × Ensures (Is contents (contents w.flash) m) f R F)
    → Ensures P f R F
at_contents contents m h = record { apply = λ w p. (h w p).1.apply w (refl, (h w p).0) }

module _ {S : Type 0} {contents : S → List ℕ} {c : Config} (ok : IsConfig c) (flash : NorFlash S)
    (law : IsLawful contents flash) where
  -- The record of an entry stands at `offset`, and nothing else has changed.
  abbrev pub Appended : List ℕ → ℕ → Entry → JournalMemory → World S → Type 0
  Appended xs offset e m w =
      (w.memory ≡ m)
      × (length (contents w.flash) ≡ length xs)
      × IsRecord c (contents w.flash) offset e
      × AgreeOutside offset (record_size c (length e.payload)) xs (contents w.flash)

  module _ (xs : List ℕ) (offset : ℕ) (e : Entry) (m : JournalMemory)
      (inside : offset + record_size c (length e.payload) ≤ length xs)
      (clean : Clean xs offset (record_size c (length e.payload))) where
    abbrev header : List ℕ
    header = record_header c e.sequence e.location (length e.payload) (crc32_of e.payload)

    abbrev commit : List ℕ
    commit = commit_array c record_commit_magic e.sequence

    abbrev padded : ℕ
    padded = journal_align_up (length e.payload) (io_unit c)

    header-length : length header ≡ record_header_size c
    header-length =
        length-record_header c e.sequence e.location (length e.payload) (crc32_of e.payload)

    commit-length : length commit ≡ commit_size c
    commit-length = length-commit_array c record_commit_magic e.sequence

    header_agrees : AgreeOutside offset (length header) xs (store xs offset header)
    header_agrees = AgreeOutside-store xs offset header

    -- what stands when the commit is missing
    abbrev Uncommitted : List ℕ → Type 0
    Uncommitted ys =
        (length ys ≡ length xs)
        × (slice ys (offset + record_header_size c) (length e.payload) ≡ e.payload)
        × AgreeOutside (offset + record_header_size c) padded (store xs offset header) ys

    both_agree :
        (ys : List ℕ)
        → AgreeOutside (offset + record_header_size c) padded (store xs offset header) ys
        → AgreeOutside offset (record_header_size c + padded) xs ys
    both_agree ys agree =
        AgreeOutside-trans xs (store xs offset header) ys offset (record_header_size c + padded)
          (AgreeOutside-wider _ _ _ _ _ _ header_agrees (omega arith)
            (omega (arith, header-length)))
          (AgreeOutside-wider _ _ _ _ _ _ agree (omega arith) (omega arith))

    module _ (ys : List ℕ) (h : Uncommitted ys) where
      abbrev zs : List ℕ
      zs = store ys (offset + record_header_size c + padded) commit

      commit_agrees : AgreeOutside (offset + record_header_size c + padded) (commit_size c) ys zs
      commit_agrees =
          subst (λ (n : ℕ). AgreeOutside (offset + record_header_size c + padded) n ys zs)
            commit-length (AgreeOutside-store ys (offset + record_header_size c + padded) commit)

      IsRecord-stands : IsRecord c zs offset e
      unfolding record_size
      IsRecord-stands = record {
        header_at =
            commit_agrees offset (record_header_size c) (inl (omega arith))
            ∙ h.2 offset (record_header_size c) (inl (omega arith))
            ∙ ap (λ (n : ℕ). slice (store xs offset header) offset n) (sym header-length)
            ∙ slice-store xs offset header (omega (arith, header-length, inside));
        payload_at =
            commit_agrees (offset + record_header_size c) (length e.payload) (
              inl (
                omega (
                  arith,
                  (journal_align_up_lem (length e.payload) (io_unit c) (io_unit_lem ok).0).0,
                )))
            ∙ h.1;
        commit_at =
            ap (λ (n : ℕ). slice zs (offset + record_header_size c + padded) n) (sym commit-length)
            ∙ slice-store ys (offset + record_header_size c + padded) commit
                (omega (arith, commit-length, inside, h.0));
      }

      commit-Appended :
          Ensures
            (Is contents ys m)
            (program_array c flash (offset + record_header_size c + padded) commit)
            (λ _. Appended xs offset e m)
            (Spoils c flash law (io_unit_lem ok).0 xs offset (record_size c (length e.payload)) m)
      unfolding record_size
      commit-Appended =
          adapt
            (program_array-Ensures contents c flash law (offset + record_header_size c + padded)
              commit
              (rw commit-length (
                Clean-kept xs ys offset (record_header_size c + padded)
                  (offset + record_header_size c + padded) (commit_size c) (both_agree ys h.2)
                  (inr (omega arith)) commit-Clean))
              (λ x w' same agree.
                let r : Spoils c flash law (io_unit_lem ok).0 xs offset
                    (record_size c (length e.payload)) m x w' =
                  (
                    same,
                    whole (contents w'.flash) (
                        subst
                          (λ (n : ℕ).
                            AgreeOutside (offset + record_header_size c + padded) n ys
                              (contents w'.flash))
                          commit-length agree),
                  ) in
                r))
            (λ w' k. k)
            (λ _ w' k. (
              k.1,
              ap length k.0 ∙ length-store ys _ commit ∙ h.0,
              subst (λ l. IsRecord c l offset e) (sym k.0) IsRecord-stands,
              subst (λ l. AgreeOutside offset (record_size c (length e.payload)) xs l) (sym k.0)
                  (whole zs commit_agrees),
            ))
            (λ x w' k. k)
        where
          commit-Clean : Clean xs (offset + record_header_size c + padded) (commit_size c)
          commit-Clean =
              subst (λ (o : ℕ). Clean xs o (commit_size c))
                (let o : offset + (record_header_size c + padded)
                      ≡ offset + record_header_size c + padded =
                    omega arith in
                  o)
                (Clean-part xs offset (record_size c (length e.payload))
                  (record_header_size c + padded) (commit_size c) clean (omega arith))

          whole :
              (l : List ℕ)
              → AgreeOutside (offset + record_header_size c + padded) (commit_size c) ys l
              → AgreeOutside offset (record_size c (length e.payload)) xs l
          whole l agree =
              AgreeOutside-trans xs ys l offset _
                (AgreeOutside-wider _ _ _ _ _ _ (both_agree ys h.2) (omega arith) (omega arith))
                (AgreeOutside-wider _ _ _ _ _ _ agree (omega arith) (omega arith))

    pub write_record-Appended :
        Ensures
          (Is contents xs m)
          (write_record c flash offset e.sequence e.location e.payload)
          (λ _. Appended xs offset e m)
          (Spoils c flash law (io_unit_lem ok).0 xs offset (record_size c (length e.payload)) m)
    unfolding write_record record_size
    write_record-Appended =
        >>=-Ensures (λ _. Is contents (store xs offset header) m)
          (program_array-Ensures contents c flash law offset header
            (rw header-length (
              Clean-front xs offset (record_size c (length e.payload)) (record_header_size c) clean
                (omega arith)))
            (λ x w same agree. (
              same,
              AgreeOutside-wider _ _ _ _ _ _ agree (omega arith) (omega (arith, header-length)),
            )))
          (λ _.
            >>=-Ensures
              (Written c flash law (io_unit_lem ok).0 (store xs offset header)
                (offset + record_header_size c) e.payload m)
              (adapt
                {F = Spoils c flash law (io_unit_lem ok).0 (store xs offset header)
                  (offset + record_header_size c) padded m}
                (write_chunks-Ensures c flash law (io_unit_lem ok).0 (length e.payload)
                  (store xs offset header) (offset + record_header_size c) e.payload m (omega arith)
                  (omega (arith, length-store xs offset header, inside))
                  (Clean-kept xs (store xs offset header) offset (length header)
                    (offset + record_header_size c) padded header_agrees
                    (inr (omega (arith, header-length)))
                    (Clean-part xs offset (record_size c (length e.payload)) (record_header_size c)
                      padded clean (omega arith))))
                (λ w h. h) (λ a w h. h)
                (λ x w h. (
                  h.0,
                  AgreeOutside-wider _ _ _ _ _ _ (both_agree (contents w.flash) h.1) (omega arith)
                      (omega arith),
                )))
              (λ stop. at_contents contents m (λ w h. (
                h.1,
                subst
                    (λ (o : ℕ).
                      Ensures (Is contents (contents w.flash) m) (program_array c flash o commit)
                        (λ _. Appended xs offset e m)
                        (Spoils c flash law (io_unit_lem ok).0 xs offset
                          (record_size c (length e.payload)) m))
                    (sym h.0)
                    (commit-Appended (contents w.flash)
                      (h.2 ∙ length-store xs offset header, h.3, h.4)),
              ))))
