-- ===== src/Nv/Journal/Memory/Write.antt =====
-- `write` keeps a journal mounted, and changes the mirror by exactly the bytes written.
use ecu_drivers.Prelude.{
  ℕ, zero, suc, ◌+◌, ◌^◌, ◌≤◌, ◌<◌, ◌≡◌, refl, ◌∙◌, ap, sym, subst, true, false, not, ◌||◌, List,
  ltb, arith, length, store-nil, Bool-cases, inl, inr, slice, slice-store, [], ◌∷◌, store,
}
use ecu_drivers.Foundation.Word.{sub_size}
use ecu_drivers.Foundation.Result.{Result, success, failure}
use ecu_drivers.Foundation.Span
use ecu_drivers.Foundation.Span.{Span, length-elements}
use ecu_drivers.Foundation.Action.{get_state, pure, fail, ◌>>=◌}
use ecu_drivers.Foundation.Action.Rules.{
  Post, Ensures, pure-Ensures, fail-Ensures, >>=-Ensures, if-Ensures, weaken, succeeds,
}
use ecu_drivers.Nv.Contract.{NorFlash}
use ecu_drivers.Nv.Journal.Error.{JournalError}
use ecu_drivers.Nv.Journal.Layout.{
  Config, IsConfig, region_start, region_end, record_size, range_valid,
}
use ecu_drivers.Nv.Journal.Monad.{JournalMemory, World}
use ecu_drivers.Nv.Journal.Memory.{write, read}
use ecu_drivers.Nv.Journal.Memory.Mounted.{IsMounted, get_memory-Ensures}
use ecu_drivers.Nv.Journal.Memory.Compact.{Holds, HasRoom, Same, append-Ensures, compact-Ensures}

pub region_end-lt :
    {c : Config} → IsConfig c → (region : ℕ) → region ≤ 1 → region_end c region < 2 ^ 64
unfolding region_end region_start
region_end-lt ok zero h = omega (arith, ok.regions_inside, ok.base_inside, ok.capacity_word)
region_end-lt ok (suc zero) h = omega (arith, ok.regions_inside, ok.base_inside, ok.capacity_word)
region_end-lt ok (suc (suc n)) h = absurd (omega arith)

pub elements-empty : (s : Span ℕ) → Span.empty s ≡ true → Span.elements s ≡ []
elements-empty (Span.null n) h = refl
elements-empty (Span.view []) h = refl
elements-empty (Span.view (x ∷ xs)) h = absurd (ground arith)

-- How a write of `bytes` at `offset` ends.
abbrev pub WriteOutcome :
    {S : Type 0} → Config → List ℕ → ℕ → List ℕ → Result Unit JournalError × World S → Type 0
WriteOutcome c bytes offset before (success _, w) =
    IsMounted c w.memory × (w.memory.mirror ≡ store before offset bytes)
WriteOutcome c bytes offset before (failure e, w) =
    IsMounted c w.memory × (w.memory.mirror ≡ before)

module _ {S : Type 0} {c : Config} (ok : IsConfig c) (flash : NorFlash S) (xs : List ℕ) where
  -- What is known behind the test for a compaction that is not needed.
  room_left :
      (n : ℕ) (m : JournalMemory)
      → Holds c xs m
      → (m.tail_unusable
          || ltb (sub_size (region_end c m.active_region) m.append_offset) (record_size c n))
        ≡ false
      → HasRoom c xs n m
  room_left n m h e = (h, ground (arith, region_end-lt ok m.active_region h.0.1))

  write-Ensures :
      (offset : ℕ) (input : Span ℕ)
      → Ensures
          (λ (w : World S). Holds c xs w.memory)
          (write c flash offset input)
          (λ _ w. Holds c (store xs offset (Span.elements input)) w.memory)
          (λ _ w. Holds c xs w.memory)
  unfolding write
  write-Ensures offset input =
      if-Ensures (not (Span.valid input)) (λ _. fail-Ensures _ (λ w h. h))
        (λ v.
          if-Ensures (not (range_valid c offset (Span.size input))) (λ _. fail-Ensures _ (λ w h. h))
            (λ _.
              if-Ensures (ltb c.max_atomic_write_size (Span.size input))
                (λ _. fail-Ensures _ (λ w h. h))
                (λ small.
                  if-Ensures (Span.empty input)
                    (λ e. pure-Ensures _ tt (λ w h. (
                      h.0,
                      h.1
                          ∙ sym (store-nil xs offset)
                          ∙ ap (λ l. store xs offset l) (sym (elements-empty input e)),
                    )))
                    (λ _.
                      let same : length (Span.elements input) ≡ Span.size input =
                        length-elements input (ground (arith, v)) in
                      let fits : length (Span.elements input) ≤ c.max_atomic_write_size =
                        ground (arith, same, small) in
                      >>=-Ensures (λ m w. Same c xs m w.memory) (get_memory-Ensures (Holds c xs))
                        (λ m.
                          >>=-Ensures (λ _ w. HasRoom c xs (length (Span.elements input)) w.memory)
                            (if-Ensures
                              (m.tail_unusable
                                || ltb (sub_size (region_end c m.active_region) m.append_offset)
                                    (record_size c (Span.size input)))
                              (λ _.
                                weaken
                                  (compact-Ensures ok flash xs (length (Span.elements input)) fits)
                                  (λ w h. h.1) (λ a w h. h))
                              (λ e. pure-Ensures _ tt (λ w h.
                                subst (λ k. HasRoom c xs k w.memory) (sym same)
                                  (subst (HasRoom c xs (Span.size input)) h.0 (
                                    room_left (Span.size input) m (subst (Holds c xs) (sym h.0) h.1)
                                      e)))))
                            (λ _. append-Ensures ok flash xs offset (Span.elements input)))))))

-- Started on a mounted journal, `write` leaves it mounted, whatever the flash answers: the next
-- record goes inside the active region. If the write succeeds, the mirror has the bytes written at
-- their offset and is otherwise as before; if it fails, it is as before.
pub write_lem :
    {S : Type 0} {c : Config}
    → IsConfig c
    → (flash : NorFlash S) (offset : ℕ) (input : Span ℕ) (w : World S) → IsMounted c w.memory
    → WriteOutcome c (Span.elements input) offset w.memory.mirror (write c flash offset input w)
write_lem {c = c} ok flash offset input w h =
    go (write c flash offset input w)
      ((write-Ensures ok flash w.memory.mirror offset input).apply w (h, refl))
  where
    go :
        {S : Type 0} (out : Result Unit JournalError × World S)
        → Post
            (λ _ w'.
              IsMounted c w'.memory
              × (w'.memory.mirror ≡ store w.memory.mirror offset (Span.elements input)))
            (λ _ w'. IsMounted c w'.memory × (w'.memory.mirror ≡ w.memory.mirror))
            out
        → WriteOutcome c (Span.elements input) offset w.memory.mirror out
    go (success _, w') p = p
    go (failure e, w') p = p

write_accepted :
    {S : Type 0} (c : Config) (flash : NorFlash S) (offset : ℕ) (input : Span ℕ) (w w' : World S)
    → write c flash offset input w ≡ (success tt, w')
    → (Span.valid input ≡ true) × (range_valid c offset (Span.size input) ≡ true)
unfolding write fail
write_accepted c flash offset input w w' e = elim (Bool-cases (Span.valid input)) [
  | inr bad ↦ absurd (let e' = rw bad at e in cc)
  | inl good ↦ elim (Bool-cases (range_valid c offset (Span.size input))) [
    | inr bad ↦ absurd (let e' = rw bad at (rw good at e) in cc)
    | inl inside ↦ (good, inside)
  ]
]

-- What a write that succeeds has put into the mirror is what `read` then gives for the same place.
pub write-read :
    {S : Type 0} {c : Config}
    → IsConfig c
    → (flash : NorFlash S) (offset : ℕ) (input output : Span ℕ) (w w' : World S)
    → IsMounted c w.memory
    → write c flash offset input w ≡ (success tt, w')
    → Span.valid output ≡ true
    → Span.size output ≡ Span.size input
    → read c flash offset output w' ≡ (success (Span.elements input), w')
unfolding read fail get_state pure ◌>>=◌ range_valid
write-read {S = S} {c = c} ok flash offset input output w w' h e v' same =
    rw (v', same, (write_accepted c flash offset input w w' e).1)
      (ap {B = Result (List ℕ) JournalError × World S} (λ l. (success l, w')) bytes)
  where
    v : Span.valid input ≡ true
    v = (write_accepted c flash offset input w w' e).0

    inside : range_valid c offset (Span.size input) ≡ true
    inside = (write_accepted c flash offset input w w' e).1

    inside' : offset + length (Span.elements input) ≤ length w.memory.mirror
    inside' = ground (arith, h.0, length-elements input v, inside)

    after : w'.memory.mirror ≡ store w.memory.mirror offset (Span.elements input)
    after = (succeeds (write-Ensures ok flash w.memory.mirror offset input) (h, refl) e).1

    bytes : slice w'.memory.mirror offset (Span.size input) ≡ Span.elements input
    bytes =
        ap (λ l. slice l offset (Span.size input)) after
        ∙ ap (λ (k : ℕ). slice (store w.memory.mirror offset (Span.elements input)) offset k)
            (sym (length-elements input v))
        ∙ slice-store w.memory.mirror offset (Span.elements input) inside'
