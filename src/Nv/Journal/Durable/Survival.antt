-- ===== src/Nv/Journal/Durable/Survival.antt =====
-- What a successful `write` has written is there when the flash is mounted anew.
use ecu_drivers.Prelude.{
  ℕ, ◌+◌, ◌≤◌, ◌<◌, ◌≡◌, refl, ◌∙◌, sym, ap, subst, true, false, not, ◌||◌, List, ltb, arith,
  length, store,
}
use ecu_drivers.Foundation.Word.{sub_size}
use ecu_drivers.Foundation.Result.{Result, success, failure}
use ecu_drivers.Foundation.Span
use ecu_drivers.Foundation.Span.{Span, length-elements}
use ecu_drivers.Foundation.Action.Rules.{
  Ensures, pure-Ensures, fail-Ensures, >>=-Ensures, if-Ensures, adapt, succeeds,
}
use ecu_drivers.Nv.Contract.{NorFlash}
use ecu_drivers.Nv.Lawful.{IsLawful}
use ecu_drivers.Nv.Journal.Error.{JournalErrorSource, JournalError}
use ecu_drivers.Nv.Journal.Layout.{Config, IsConfig, record_size, region_end, range_valid}
use ecu_drivers.Nv.Journal.Monad.{JournalMemory, World}
use ecu_drivers.Nv.Journal.Memory.{write, append, compact, mount}
use ecu_drivers.Nv.Journal.Memory.Compact.{room_for}
use ecu_drivers.Nv.Journal.Memory.Write.{region_end-lt}
use ecu_drivers.Nv.Journal.Durable.Rules.{Is, get_memory_then, if_false-Ensures}
use ecu_drivers.Nv.Journal.Durable.Entries.{Entry}
use ecu_drivers.Nv.Journal.Durable.Region.{recovered}
use ecu_drivers.Nv.Journal.Durable.Recovery.{mount-Recovers, Recovers, other_region}
use ecu_drivers.Nv.Journal.Durable.State.{IsKept, IsKept-Keeps, IsKept-recovered, is_full}
use ecu_drivers.Nv.Journal.Durable.Appending.{append-IsKept}
use ecu_drivers.Nv.Journal.Durable.Compaction.{compact-IsKept}

-- A journal object and a flash that keeps it, with this mirror.
pub record Holding {S : Type 0} (contents : S → List ℕ) (c : Config) (bytes : List ℕ)
    (m : JournalMemory) (s : S) : Type 0 where
  pub entries : List Entry
  pub kept : IsKept c (contents s) m entries
  pub mirror_is : m.mirror ≡ bytes

-- How a mount ends that finds this journal.
abbrev pub Remounts :
    {S : Type 0} → (S → List ℕ) → Config → List ℕ → Result JournalMemory JournalError × S → Type 0
Remounts contents c bytes (success m, s) = Holding contents c bytes m s
Remounts contents c bytes (failure e, s) = e.source ≡ JournalErrorSource.flash

module _ {S : Type 0} {contents : S → List ℕ} {c : Config} (ok : IsConfig c) (flash : NorFlash S)
    (law : IsLawful contents flash) where
  -- Where a journal with a usable tail is kept, a mount of these contents gives its mirror.
  pub remount :
      (bytes : List ℕ) (m : JournalMemory) (s : S)
      → Holding contents c bytes m s
      → m.tail_unusable ≡ false
      → (mirror : Span ℕ) (s' : S) → contents s' ≡ contents s
      → Span.valid mirror ≡ true
      → Span.size mirror ≡ c.logical_capacity
      → Remounts contents c bytes (mount c flash mirror s')
  remount bytes m s h usable mirror s' here valid size = go (mount c flash mirror s') (
      mount-Recovers ok flash law (contents s) h.entries (is_full c m) m.active_region m.generation
        (IsKept-Keeps c (contents s) m h.entries h.kept usable) mirror s' valid size here)
    where
      again : IsKept c (contents s) (record m { tail_unusable = is_full c m }) h.entries
      again = record {
        one_of_two = h.kept.one_of_two;
        stored = h.kept.stored;
        newest = h.kept.newest;
        older = h.kept.older;
        mirror_is = h.kept.mirror_is;
        last_is = h.kept.last_is;
        end_is = h.kept.end_is;
        rest = λ _. h.kept.rest usable;
      }

      holding :
          (m' : JournalMemory) (s'' : S)
          → m' ≡ record m { tail_unusable = is_full c m }
          → contents s'' ≡ contents s
          → Holding contents c bytes m' s''
      holding m' s'' e same = record {
        entries = h.entries;
        kept =
            subst (λ x. IsKept c x m' h.entries) (sym same)
              (subst (λ x. IsKept c (contents s) x h.entries) (sym e) again);
        mirror_is = ap (λ (x : JournalMemory). x.mirror) e ∙ h.mirror_is;
      }

      go :
          (out : Result JournalMemory JournalError × S)
          → Recovers contents
              (contents s)
              (recovered c m.active_region m.generation h.entries (is_full c m))
              out
          → Remounts contents c bytes out
      go (success m', s'') r =
          holding m' s'' (r.0 ∙ IsKept-recovered c (contents s) m h.entries h.kept) r.1
      go (failure e, s'') r = r.0

  -- Ready for a record of `n` bytes: it has room in a usable tail.
  record IsReady (n : ℕ) (bytes : List ℕ) (w : World S) : Type 0 where
    holding : Holding contents c bytes w.memory w.flash
    usable : w.memory.tail_unusable ≡ false
    room : w.memory.append_offset + record_size c n ≤ region_end c w.memory.active_region

  -- What a successful write leaves.
  abbrev Written : List ℕ → World S → Type 0
  Written bytes w = Holding contents c bytes w.memory w.flash × (w.memory.tail_unusable ≡ false)

  holding_at :
      (bytes : List ℕ) (m : JournalMemory) (es : List Entry) (w : World S)
      → w.memory ≡ m
      → IsKept c (contents w.flash) m es
      → m.mirror ≡ bytes
      → Holding contents c bytes w.memory w.flash
  holding_at bytes m es w e kept same = record {
    entries = es;
    kept = subst (λ x. IsKept c (contents w.flash) x es) (sym e) kept;
    mirror_is = ap (λ (x : JournalMemory). x.mirror) e ∙ same;
  }

  append-Written :
      (offset : ℕ) (input : List ℕ) (bytes : List ℕ)
      → 0 < length input
      → offset + length input ≤ c.logical_capacity
      → Ensures
          (IsReady (length input) bytes)
          (append c flash offset input)
          (λ _. Written (store bytes offset input))
          (λ _ _. Unit)
  append-Written offset input bytes pos inside = record {
    apply = λ w p.
        (adapt {R' = λ _. Written (store bytes offset input)} {F' = λ _ _. Unit}
            (append-IsKept ok flash law (contents w.flash) w.memory p.holding.entries p.holding.kept
              offset input pos inside p.usable p.room)
            (λ w' q. q)
            (λ _ w' q. (
              holding_at _ _ _ w' q.0 q.1 (ap (λ l. store l offset input) p.holding.mirror_is),
              ap (λ (x : JournalMemory). x.tail_unusable) q.0 ∙ p.usable,
            ))
            (λ e w' q. tt)).apply
          w (refl, refl);
  }

  compact-IsReady :
      (n : ℕ) (xs : List ℕ) (m : JournalMemory) (es : List Entry)
      → IsKept c xs m es
      → n ≤ c.max_atomic_write_size
      → Ensures (Is contents xs m) (compact c flash) (λ _. IsReady n m.mirror) (λ _ _. Unit)
  compact-IsReady n xs m es k small =
      adapt (compact-IsKept ok xs m es k flash law) (λ w p. p)
        (λ _ w p. record {
          holding = holding_at m.mirror _ _ w p.0 p.1 refl;
          usable = ap (λ (x : JournalMemory). x.tail_unusable) p.0;
          room =
              subst
                (λ (x : JournalMemory).
                  x.append_offset + record_size c n ≤ region_end c x.active_region)
                (sym p.0) (room_for ok (other_region m.active_region) n small);
        })
        (λ e w p. tt)

  write-Written :
      (xs : List ℕ) (m : JournalMemory) (es : List Entry)
      → IsKept c xs m es
      → (offset : ℕ) (input : Span ℕ) → Span.empty input ≡ false
      → Ensures
          (Is contents xs m)
          (write c flash offset input)
          (λ _. Written (store m.mirror offset (Span.elements input)))
          (λ _ _. Unit)
  unfolding write range_valid
  write-Written xs m es k offset input some_bytes =
      if-Ensures (not (Span.valid input)) (λ _. fail-Ensures _ (λ w h. tt))
        (λ v.
          if-Ensures (not (range_valid c offset (Span.size input)))
            (λ _. fail-Ensures _ (λ w h. tt))
            (λ inside.
              if-Ensures (ltb c.max_atomic_write_size (Span.size input))
                (λ _. fail-Ensures _ (λ w h. tt))
                (λ small. if_false-Ensures (Span.empty input) _ _ some_bytes (
                  let same : length (Span.elements input) ≡ Span.size input =
                    length-elements input (ground (arith, v)) in
                  get_memory_then contents _ (
                    >>=-Ensures (λ _. IsReady (length (Span.elements input)) m.mirror)
                      (if-Ensures
                        (m.tail_unusable
                          || ltb (sub_size (region_end c m.active_region) m.append_offset)
                              (record_size c (Span.size input)))
                        (λ _.
                          compact-IsReady (length (Span.elements input)) xs m es k
                            (ground (arith, same, small)))
                        (λ e. pure-Ensures _ tt (λ w h. ready w h same e)))
                      (λ _.
                        append-Written offset (Span.elements input) m.mirror
                          (ground (arith, same, some_bytes)) (ground (arith, same, inside))))))))
    where
      ready :
          (w : World S)
          → Is contents xs m w
          → length (Span.elements input) ≡ Span.size input
          → (m.tail_unusable
              || ltb
                  (sub_size (region_end c m.active_region) m.append_offset)
                  (record_size c (Span.size input)))
            ≡ false
          → IsReady (length (Span.elements input)) m.mirror w
      ready w h same e = record {
        holding = holding_at m.mirror m es w h.1 (subst (λ l. IsKept c l m es) (sym h.0) k) refl;
        usable = ap (λ (x : JournalMemory). x.tail_unusable) h.1 ∙ ground (arith, e);
        room =
            subst
              (λ (x : JournalMemory).
                x.append_offset + record_size c (length (Span.elements input))
                ≤ region_end c x.active_region)
              (sym h.1)
              (subst (λ (n : ℕ). m.append_offset + record_size c n ≤ region_end c m.active_region)
                (sym same)
                (ground (
                  arith,
                  e,
                  region_end-lt ok m.active_region k.one_of_two,
                  k.end_is,
                  k.newest.inside,
                )));
      }

  -- Started on a journal that the flash keeps, a write of at least one byte that succeeds, whether it compacts or not, leaves a
  -- journal that the flash keeps, with a usable tail and the bytes written in the mirror.
  pub write-Holding :
      (offset : ℕ) (input : Span ℕ) (w w' : World S)
      → Holding contents c w.memory.mirror w.memory w.flash
      → Span.empty input ≡ false
      → write c flash offset input w ≡ (success tt, w')
      → Holding contents c (store w.memory.mirror offset (Span.elements input)) w'.memory w'.flash
        × (w'.memory.tail_unusable ≡ false)
  write-Holding offset input w w' h some_bytes e =
      succeeds (write-Written (contents w.flash) w.memory h.entries h.kept offset input some_bytes)
        (refl, refl) e

  -- Whenever a flash with the contents that such a write has left is mounted anew, with a valid
  -- mirror of the right size, the journal found has in its mirror the one from before with the bytes written at their
  -- offset, and the flash keeps it; the mount fails only if the flash does.
  pub write-mount :
      (offset : ℕ) (input mirror : Span ℕ) (w w' : World S) (s : S)
      → Holding contents c w.memory.mirror w.memory w.flash
      → Span.empty input ≡ false
      → write c flash offset input w ≡ (success tt, w')
      → contents s ≡ contents w'.flash
      → Span.valid mirror ≡ true
      → Span.size mirror ≡ c.logical_capacity
      → Remounts contents c
          (store w.memory.mirror offset (Span.elements input))
          (mount c flash mirror s)
  write-mount offset input mirror w w' s h some_bytes e here valid size =
      let after = write-Holding offset input w w' h some_bytes e in
      remount _ w'.memory w'.flash after.0 after.1 mirror s here valid size
