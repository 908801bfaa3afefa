-- ===== src/Nv/Journal/Durable/Appending.antt =====
-- `append` on a kept journal: one more entry.
use ecu_drivers.Prelude.{
  ℕ, zero, suc, ◌+◌, ◌-◌, ◌≤◌, ◌<◌, ◌^◌, ◌≡◌, refl, ◌∙◌, sym, ap, subst, ◌⊎◌, inl, inr, true, false,
  List, [], ◌∷◌, ◌++◌, ◌==◌, arith, length, store,
}
use ecu_drivers.Foundation.Word.{u64_max}
use ecu_drivers.Foundation.Action.Rules.{
  Ensures, fail-Ensures, >>=-Ensures, if-Ensures, on_error-Ensures, modify-Ensures, adapt,
}
use ecu_drivers.Nv.Contract.{NorFlash}
use ecu_drivers.Nv.Lawful.{IsLawful, AgreeOutside}
use ecu_drivers.Nv.Journal.Layout.{
  Config, IsConfig, record_size, record_area_offset, region_end, region_start,
}
use ecu_drivers.Nv.Journal.Monad.{JournalMemory, World, update}
use ecu_drivers.Nv.Journal.Memory.{append}
use ecu_drivers.Nv.Journal.Durable.Rules.{Is, get_memory_then}
use ecu_drivers.Nv.Journal.Durable.Entries.{
  Entry, IsRecord, Kept, end_of-ge, end_of-snoc, last_of, last_of-snoc, replay-snoc,
}
use ecu_drivers.Nv.Journal.Durable.Changes.{Clean-front, Clean-part, Clean-kept}
use ecu_drivers.Nv.Journal.Durable.Append.{Appended, write_record-Appended}
use ecu_drivers.Nv.Journal.Durable.Region.{area_start}
use ecu_drivers.Nv.Journal.Durable.Recovery.{other_region}
use ecu_drivers.Nv.Journal.Durable.State.{IsKept, IsOlder-kept, Region-snoc}

-- The last number of a chain is a 64-bit number.
last_of-lt :
    (c : Config) (xs : List ℕ) (offset sequence : ℕ) (es : List Entry)
    → sequence < 2 ^ 64
    → Kept c xs offset sequence es
    → last_of sequence es < 2 ^ 64
last_of-lt c xs offset sequence [] h k = h
last_of-lt c xs offset sequence (e ∷ es) h k =
    last_of-lt c xs (offset + record_size c (length e.payload)) e.sequence es k.0.sequence_word k.3

-- So is the last number of a kept journal.
pub last_word :
    (c : Config) (xs : List ℕ) (m : JournalMemory) (es : List Entry)
    → IsKept c xs m es
    → m.last_sequence < 2 ^ 64
last_word c xs m es k = omega (
  arith,
  k.last_is,
  last_of-lt c xs (area_start c m.active_region) 0 es (omega arith) k.newest.chain,
)

-- Where the active region is changed, the other region's head stays.
away :
    (c : Config) (region offset size : ℕ)
    → IsConfig c
    → region ≤ 1
    → area_start c region ≤ offset
    → offset + size ≤ region_end c region
    → (region_start c (other_region region) + record_area_offset c ≤ offset)
      ⊎ (offset + size ≤ region_start c (other_region region))
unfolding region_start region_end record_area_offset
away c zero offset size ok h from stop = inr (omega (arith, stop))
away c (suc zero) offset size ok h from stop = inl (omega (arith, from, ok.room))
away c (suc (suc n)) offset size ok h from stop = absurd (omega (arith, h))

-- the entry of a write to a mounted journal
abbrev pub new_entry : JournalMemory → ℕ → List ℕ → Entry
new_entry m offset input = record {
  sequence = m.last_sequence + 1;
  location = offset;
  payload = input;
}

-- the fields behind a write
abbrev pub behind : Config → JournalMemory → ℕ → List ℕ → JournalMemory
behind c m offset input = record m {
  mirror = store m.mirror offset input;
  append_offset = m.append_offset + record_size c (length input);
  last_sequence = m.last_sequence + 1;
}

module _ {S : Type 0} {contents : S → List ℕ} {c : Config} (ok : IsConfig c) (flash : NorFlash S)
    (law : IsLawful contents flash) (xs : List ℕ) (m : JournalMemory) (es : List Entry)
    (k : IsKept c xs m es) (offset : ℕ) (input : List ℕ) (pos : 0 < length input)
    (inside : offset + length input ≤ c.logical_capacity) (usable : m.tail_unusable ≡ false)
    (room : m.append_offset + record_size c (length input) ≤ region_end c m.active_region) where
  IsKept-behind :
      (ys : List ℕ)
      → m.last_sequence < u64_max
      → (w : World S) → contents w.flash ≡ ys
      → Appended {S = S} {contents = contents} ok flash law xs m.append_offset
          (new_entry m offset input)
          m
          w
      → IsKept c ys (behind c m offset input) (es ++ (new_entry m offset input ∷ []))
  IsKept-behind ys lt w here a = record {
    one_of_two = k.one_of_two;
    stored = omega (arith, k.stored, same);
    newest =
        Region-snoc ok xs ys m.active_region m.generation es (new_entry m offset input) k.newest
          same
          (subst (λ (o : ℕ). AgreeOutside o (record_size c (length input)) xs ys) k.end_is agree)
          (subst (λ (o : ℕ). IsRecord c ys o (new_entry m offset input)) k.end_is
            (subst (λ l. IsRecord c l m.append_offset (new_entry m offset input)) here a.2))
          (record { pos = pos; inside = inside; sequence_word = omega (arith, lt) })
          (omega (arith, k.last_is)) (omega (arith, k.end_is, room));
    older =
        IsOlder-kept ok xs ys m.append_offset (record_size c (length input)) agree
          (other_region m.active_region) m.generation
          (away c m.active_region m.append_offset (record_size c (length input)) ok k.one_of_two
            (omega (arith, k.end_is, end_of-ge c (area_start c m.active_region) es)) room)
          k.older;
    mirror_is =
        ap (λ l. store l offset input) k.mirror_is
        ∙ sym (replay-snoc _ es (new_entry m offset input));
    last_is = sym (last_of-snoc 0 es (new_entry m offset input));
    end_is = omega (
      arith,
      k.end_is,
      end_of-snoc c (area_start c m.active_region) es (new_entry m offset input),
    );
    rest = λ _.
        Clean-kept xs ys m.append_offset (record_size c (length input)) _ _ agree
          (inr (omega arith))
          (Clean-part xs m.append_offset (region_end c m.active_region - m.append_offset)
            (record_size c (length input)) _ (k.rest usable) (omega (arith, room)));
  }
    where
      same : length ys ≡ length xs
      same = ap length (sym here) ∙ a.1

      agree : AgreeOutside m.append_offset (record_size c (length input)) xs ys
      agree = subst (AgreeOutside m.append_offset (record_size c (length input)) xs) here a.3

  pub append-IsKept :
      Ensures
        (Is contents xs m)
        (append c flash offset input)
        (λ _ w.
          (w.memory ≡ behind c m offset input)
          × IsKept c
              (contents w.flash)
              (behind c m offset input)
              (es ++ (new_entry m offset input ∷ [])))
        (λ _ _. Unit)
  unfolding append
  append-IsKept = get_memory_then contents _ (
      if-Ensures (m.last_sequence == u64_max) (λ _. fail-Ensures _ (λ w h. tt))
        (λ e.
          >>=-Ensures (λ _. Appended ok flash law xs m.append_offset (new_entry m offset input) m)
            (on_error-Ensures (update (λ now. record now { tail_unusable = true })) (λ _ _. Unit)
              (adapt
                (write_record-Appended ok flash law xs m.append_offset (new_entry m offset input) m
                  (omega (arith, room, k.newest.stored))
                  (Clean-front xs m.append_offset (region_end c m.active_region - m.append_offset)
                    (record_size c (length input)) (k.rest usable) (omega (arith, room))))
                (λ w h. h) (λ _ w h. h) (λ x w h. tt))
              (λ x w h. tt))
            (λ _. modify-Ensures _ (λ w a. (
              ap (λ now. after now) a.0,
              IsKept-behind (contents w.flash) (ground (arith, e, last_word c xs m es k)) w refl a,
            )))))
    where
      after : JournalMemory → JournalMemory
      after now = record now {
        mirror = store now.mirror offset input;
        append_offset = now.append_offset + record_size c (length input);
        last_sequence = m.last_sequence + 1;
      }
