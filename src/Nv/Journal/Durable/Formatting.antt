-- ===== src/Nv/Journal/Durable/Formatting.antt =====
-- A formatted flash keeps an empty journal.
use ecu_drivers.Prelude.{
  ℕ, ◌+◌, ◌≤◌, ◌≡◌, refl, ◌∙◌, sym, ap, subst, inl, inr, false, not, ◌||◌, List, [], ◌==◌,
  Bool-cases, arith, length, length-store, slice, slice-store, store,
}
use ecu_drivers.Foundation.Result.{Result, success, failure}
use ecu_drivers.Foundation.Span
use ecu_drivers.Foundation.Span.{Span, length-elements}
use ecu_drivers.Foundation.Action.Rules.{Post, Ensures, >>=-Ensures, adapt}
use ecu_drivers.Nv.Contract.{NorFlash}
use ecu_drivers.Nv.Lawful.{IsLawful, AgreeOutside}
use ecu_drivers.Nv.Journal.Error.{JournalError}
use ecu_drivers.Nv.Journal.Bytes.{fill_erased}
use ecu_drivers.Nv.Journal.Layout.{
  Config, IsConfig, record_area_offset, region_end, region_start, region_header_size, commit_size,
}
use ecu_drivers.Nv.Journal.Headers.{region_header, commit_array, region_commit_magic}
use ecu_drivers.Nv.Journal.Monad.{JournalMemory, World}
use ecu_drivers.Nv.Journal.Memory.{format_storage, format, fresh}
use ecu_drivers.Nv.Journal.Storage.{write_region_header, write_region_commit}
use ecu_drivers.Nv.Journal.Durable.Rules.{Is, assign_then, program_array-Ensures}
use ecu_drivers.Nv.Journal.Durable.Append.{length-region_header, length-commit_array}
use ecu_drivers.Nv.Journal.Durable.Changes.{
  Clean, Clean-front, Clean-part, Clean-kept, AgreeOutside-store,
}
use ecu_drivers.Nv.Journal.Durable.Region.{area_start}
use ecu_drivers.Nv.Journal.Durable.State.{IsKept}
use ecu_drivers.Nv.Journal.Durable.Seal.{blanked, blanked_agrees, blanked-Clean, erased_not_taken}
use ecu_drivers.Nv.Journal.Durable.Steps.{erase_region-Ensures, sync-Ensures}
use ecu_drivers.Nv.Journal.Durable.Survival.{Holding}

-- the fields behind a formatting
abbrev empty_journal : Config → JournalMemory
empty_journal c = record {
  mirror = fill_erased c.logical_capacity;
  generation = 1;
  last_sequence = 0;
  append_offset = area_start c 0;
  active_region = 0;
  tail_unusable = false;
}

module _ {c : Config} (ok : IsConfig c) (xs : List ℕ) (stored : region_end c 1 ≤ length xs) where
  abbrev second_erased : List ℕ
  second_erased = blanked c (blanked c xs 0) 1

  abbrev with_header : List ℕ
  with_header = store second_erased (region_start c 0) (region_header c 1)

  abbrev with_commit : List ℕ
  with_commit =
      store with_header (region_start c 0 + region_header_size c)
        (commit_array c region_commit_magic 1)

  same_length : length second_erased ≡ length xs
  same_length = length-store _ _ _ ∙ length-store xs _ _

  first-Clean : Clean second_erased (region_start c 0) c.region_size
  unfolding region_start region_end
  first-Clean =
      Clean-kept (blanked c xs 0) second_erased _ _ _ _ (blanked_agrees c (blanked c xs 0) 1)
        (inl (omega arith)) (blanked-Clean c xs 0 (omega (arith, stored)))

  second-Clean : Clean second_erased (region_start c 1) c.region_size
  unfolding region_start region_end
  second-Clean =
      blanked-Clean c (blanked c xs 0) 1
        (omega (arith, stored, length-store xs (region_start c 0) (fill_erased c.region_size)))

  header_agrees : AgreeOutside (region_start c 0) (region_header_size c) second_erased with_header
  header_agrees =
      subst (λ (n : ℕ). AgreeOutside (region_start c 0) n second_erased with_header)
        (length-region_header c 1)
        (AgreeOutside-store second_erased (region_start c 0) (region_header c 1))

  commit_agrees :
      AgreeOutside (region_start c 0 + region_header_size c) (commit_size c) with_header with_commit
  commit_agrees =
      subst
        (λ (n : ℕ).
          AgreeOutside (region_start c 0 + region_header_size c) n with_header with_commit)
        (length-commit_array c region_commit_magic 1)
        (AgreeOutside-store with_header (region_start c 0 + region_header_size c)
          (commit_array c region_commit_magic 1))

  commit-Clean : Clean with_header (region_start c 0 + region_header_size c) (commit_size c)
  unfolding record_area_offset
  commit-Clean = Clean-kept second_erased with_header _ _ _ _ header_agrees (inr (omega arith)) (
      Clean-part second_erased (region_start c 0) c.region_size (region_header_size c)
        (commit_size c) first-Clean (omega (arith, ok.room)))

  empty_IsKept : IsKept c with_commit (empty_journal c) []
  unfolding record_area_offset region_end region_start
  empty_IsKept = record {
    one_of_two = omega arith;
    stored = omega (arith, longer, stored);
    newest = record {
      generation_pos = omega arith;
      generation_word = omega arith;
      header_at =
          commit_agrees _ _ (inl (omega arith))
          ∙ ap (λ (n : ℕ). slice with_header (region_start c 0) n) (sym (length-region_header c 1))
          ∙ slice-store second_erased (region_start c 0) (region_header c 1)
              (omega (arith, length-region_header c 1, same_length, stored, ok.room));
      commit_at =
          ap (λ (n : ℕ). slice with_commit (region_start c 0 + region_header_size c) n)
            (sym (length-commit_array c region_commit_magic 1))
          ∙ slice-store with_header (region_start c 0 + region_header_size c)
              (commit_array c region_commit_magic 1)
              (omega (
                arith,
                length-commit_array c region_commit_magic 1,
                length-store second_erased (region_start c 0) (region_header c 1),
                same_length,
                stored,
                ok.room,
              ));
      chain = tt;
      inside = omega (arith, ok.room);
      stored = omega (arith, longer, stored);
      whole = inl refl;
    };
    older = inl (
        erased_not_taken ok with_commit 1 (
          Clean-kept with_header with_commit _ _ _ _ commit_agrees (inr (omega (arith, ok.room))) (
            Clean-kept second_erased with_header _ _ _ _ header_agrees
              (inr (omega (arith, ok.room))) second-Clean)));
    mirror_is = refl;
    last_is = refl;
    end_is = refl;
    rest = λ _. Clean-kept with_header with_commit _ _ _ _ commit_agrees (inr (omega arith)) (
        Clean-kept second_erased with_header _ _ _ _ header_agrees (inr (omega arith)) (
          Clean-part second_erased (region_start c 0) c.region_size (record_area_offset c) _
            first-Clean (omega (arith, ok.room))));
  }
    where
      longer : length with_commit ≡ length xs
      longer = length-store with_header _ _ ∙ length-store second_erased _ _ ∙ same_length

  module _ {S : Type 0} {contents : S → List ℕ} (flash : NorFlash S)
      (law : IsLawful contents flash) where
    format_storage-IsKept :
        (m : JournalMemory)
        → length m.mirror ≡ c.logical_capacity
        → Ensures
            (Is contents xs m)
            (format_storage c flash)
            (λ _. Is contents with_commit (empty_journal c))
            (λ _ _. Unit)
    unfolding record_area_offset format_storage write_region_header write_region_commit
    format_storage-IsKept m sized =
        >>=-Ensures (λ _. Is contents (blanked c xs 0) m) (erase_region-Ensures c flash law 0)
          (λ _.
            >>=-Ensures (λ _. Is contents second_erased m) (erase_region-Ensures c flash law 1)
              (λ _. assign_then contents _ (
                >>=-Ensures (λ _. Is contents with_header (empty_journal c))
                  (adapt
                    (program_array-Ensures contents c flash law (region_start c 0)
                      (region_header c 1)
                      (rw (length-region_header c 1) (
                        Clean-front second_erased _ c.region_size _ first-Clean
                          (omega (arith, headers))))
                      (λ x w same agree. tt))
                    (λ w h. (h.0, h.1 ∙ ap (λ (n : ℕ). from (fill_erased n)) sized)) (λ _ w h. h)
                    (λ x w h. tt))
                  (λ _.
                    >>=-Ensures (λ _. Is contents with_commit (empty_journal c))
                      (program_array-Ensures contents c flash law _ _
                        (rw (length-commit_array c region_commit_magic 1) commit-Clean)
                        (λ x w same agree. tt))
                      (λ _. sync-Ensures c flash law)))))
      where
        from : List ℕ → JournalMemory
        from bytes = record (empty_journal c) { mirror = bytes }

        headers : region_header_size c ≤ c.region_size
        headers = omega (arith, ok.room)

-- A flash as large as both regions that is formatted successfully keeps a journal whose mirror is erased, with a
-- usable tail.
pub format-Holding :
    {S : Type 0} {contents : S → List ℕ} {c : Config}
    → IsConfig c
    → (flash : NorFlash S) → IsLawful contents flash
    → (mirror : Span ℕ) (s s' : S) (m : JournalMemory) → region_end c 1 ≤ length (contents s)
    → format c flash mirror s ≡ (success m, s')
    → Holding contents c (fill_erased c.logical_capacity) m s' × (m.tail_unusable ≡ false)
unfolding format
format-Holding {S} {contents} {c} ok flash law mirror s s' m stored e =
    elim (Bool-cases (not (Span.valid mirror) || not (Span.size mirror == c.logical_capacity))) [
      | inl bad ↦ absurd (let e' = rw bad at e in cc)
      | inr good ↦
          let sized : length (Span.elements mirror) ≡ c.logical_capacity =
            length-elements mirror (ground (arith, good)) ∙ ground (arith, good) in
          go (format_storage c flash (fresh c flash (Span.elements mirror) s))
            ((format_storage-IsKept ok (contents s) stored flash law
                (fresh c flash (Span.elements mirror) s).memory sized).apply
              (fresh c flash (Span.elements mirror) s) (refl, refl))
            (rw good at e)
    ]
  where
    go :
        (out : Result Unit JournalError × World S)
        → Post
            (λ _. Is contents (with_commit ok (contents s) stored) (empty_journal c))
            (λ _ _. Unit)
            out
        → Path
            (Result JournalMemory JournalError × S)
            (elim out.0 [ success _ ↦ success out.1.memory | failure x ↦ failure x ], out.1.flash)
            (success m, s')
        → Holding contents c (fill_erased c.logical_capacity) m s' × (m.tail_unusable ≡ false)
    go (failure x, w) p same = absurd (cc)
    go (success _, w) p same =
        let memory_is : m ≡ empty_journal c = sym (ap held same) ∙ p.1 in
        let contents_are : contents s' ≡ with_commit ok (contents s) stored =
          sym (ap (λ (o : Result JournalMemory JournalError × S). contents o.1) same) ∙ p.0 in
        (
          record {
            entries = [];
            kept =
                subst (λ l. IsKept c l m []) (sym contents_are)
                  (subst (λ x. IsKept c (with_commit ok (contents s) stored) x []) (sym memory_is)
                    (empty_IsKept ok (contents s) stored));
            mirror_is = ap (λ (x : JournalMemory). x.mirror) memory_is;
          },
          ap (λ (x : JournalMemory). x.tail_unusable) memory_is,
        )
      where
        held : Result JournalMemory JournalError × S → JournalMemory
        held (success x, t) = x
        held (failure x, t) = w.memory
