-- ===== src/Nv/Journal/Durable/Recovery.antt =====
-- Mounting a flash that keeps a journal.
use ecu_drivers.Prelude.{
  ℕ, zero, suc, ◌≤◌, ◌<◌, ◌≡◌, refl, ◌∙◌, ◌⊎◌, inl, inr, Bool, true, false, not, ◌&&◌, ◌||◌, List,
  ◌==◌, Bool-cases, arith, length, if◌then◌else◌,
}
use ecu_drivers.Foundation.Result.{Result, success, failure}
use ecu_drivers.Foundation.Span
use ecu_drivers.Foundation.Span.{Span, length-elements}
use ecu_drivers.Foundation.Action.{◌>>◌}
use ecu_drivers.Foundation.Action.Rules.{Post, Ensures, >>=-Ensures, adapt}
use ecu_drivers.Nv.Contract.{NorFlash}
use ecu_drivers.Nv.Lawful.{IsLawful}
use ecu_drivers.Nv.Journal.Error.{JournalErrorSource, JournalError}
use ecu_drivers.Nv.Journal.Layout.{Config, IsConfig, region_end}
use ecu_drivers.Nv.Journal.Monad.{JournalMemory, World}
use ecu_drivers.Nv.Journal.Recover.{RegionInfo, load_active_region}
use ecu_drivers.Nv.Journal.Memory.{
  is_recovery, second_is_newer, select_region, load_or_fall_back, choose_region, mount_existing,
  mount, fresh,
}
use ecu_drivers.Nv.Journal.Durable.Rules.{
  Is, assuming, FlashFails, assign_then, if_true-Ensures, if_false-Ensures,
}
use ecu_drivers.Nv.Journal.Durable.Entries.{Entry, end_of}
use ecu_drivers.Nv.Journal.Durable.Load.{Tail}
use ecu_drivers.Nv.Journal.Durable.Region.{
  Region, IsOlder, Tells, recovered, area_start, Region-taken, inspect_region-Ensures,
  load_active_region-Ensures,
}

-- the other one of the two regions
abbrev pub other_region : ℕ → ℕ
other_region region = if region == 0 then 1 else 0

-- A flash that keeps a journal: its newest region, that region's entries, and how it ends.
pub record Keeps (c : Config) (xs : List ℕ) (region generation : ℕ) (es : List Entry)
    (unusable : Bool) : Type 0 where
  pub one_of_two : region ≤ 1
  pub newest : Region c xs region generation es
  pub older : IsOlder c xs (other_region region) generation
  pub tail : Tail c xs (end_of c (area_start c region) es) (region_end c region) unusable

-- How a mount of such a flash ends: with the journal, or with an error of the flash.
abbrev pub Recovers :
    {S : Type 0}
    → (S → List ℕ)
    → List ℕ
    → JournalMemory
    → Result JournalMemory JournalError × S
    → Type 0
Recovers contents xs m (success m', s) = (m' ≡ m) × (contents s ≡ xs)
Recovers contents xs m (failure e, s) = (e.source ≡ JournalErrorSource.flash) × (contents s ≡ xs)

not_recovery : (e : JournalError) → e.source ≡ JournalErrorSource.flash → is_recovery e ≡ false
not_recovery e h = rw h refl

module _ (c : Config) (xs : List ℕ) (generation : ℕ) where
  -- what is known of the region that is not the newest
  older_info :
      (region : ℕ) (info : RegionInfo)
      → Tells c xs region info
      → IsOlder c xs region generation
      → (info.is_valid ≡ false) ⊎ (info.generation < generation)
  older_info region info t (inl e) = inl (t.0 ∙ e)
  older_info region info t (inr l) = elim (Bool-cases info.is_valid) [
    | inl valid ↦ inr (omega (arith, t.1 valid, l))
    | inr bad ↦ inl bad
  ]

module _ {S : Type 0} {contents : S → List ℕ} {c : Config} (ok : IsConfig c) (flash : NorFlash S)
    (law : IsLawful contents flash) (xs : List ℕ) (es : List Entry) (unusable : Bool) where
  load_or_fall_back-Ensures :
      (m : JournalMemory) (alternate_valid : Bool) (region generation : ℕ)
      → Region c xs m.active_region m.generation es
      → Tail c xs
          (end_of c (area_start c m.active_region) es)
          (region_end c m.active_region)
          unusable
      → length m.mirror ≡ c.logical_capacity
      → Ensures
          (Is contents xs m)
          (load_or_fall_back c flash alternate_valid region generation)
          (λ _. Is contents xs (recovered c m.active_region m.generation es unusable))
          (FlashFails contents xs)
  unfolding load_or_fall_back
  load_or_fall_back-Ensures m alternate_valid region generation r tail sized = record {
    apply = λ w p.
        go (load_active_region c flash w)
          ((load_active_region-Ensures ok flash law xs m es unusable r tail sized).apply w p);
  }
    where
      go :
          (out : Result Unit JournalError × World S)
          → Post
              (λ _. Is contents xs (recovered c m.active_region m.generation es unusable))
              (FlashFails contents xs)
              out
          → Post {W = World S} {E = JournalError}
              (λ (_ : Unit). Is contents xs (recovered c m.active_region m.generation es unusable))
              (FlashFails contents xs)
              (elim out.0 [
                | success u ↦ (success u, out.1)
                | failure e ↦
                    if is_recovery e && alternate_valid
                    then (select_region c flash region generation >> load_active_region c flash)
                        out.1
                    else (failure e, out.1)
              ])
      go (success u, w) p = p
      go (failure e, w) p = rw (not_recovery e p.0) p

  select_then-Ensures :
      (m : JournalMemory) (chosen generation : ℕ) (alternate_valid : Bool) (region other : ℕ)
      → Region c xs chosen generation es
      → Tail c xs (end_of c (area_start c chosen) es) (region_end c chosen) unusable
      → length m.mirror ≡ c.logical_capacity
      → Ensures
          (Is contents xs m)
          (select_region c flash chosen generation
            >> load_or_fall_back c flash alternate_valid region other)
          (λ _. Is contents xs (recovered c chosen generation es unusable))
          (FlashFails contents xs)
  unfolding select_region
  select_then-Ensures m chosen generation alternate_valid region other r tail sized =
      assign_then contents _ (load_or_fall_back-Ensures _ alternate_valid region other r tail sized)

  choose_region-Ensures :
      (m : JournalMemory) (region generation : ℕ) (first second : RegionInfo)
      → Keeps c xs region generation es unusable
      → length m.mirror ≡ c.logical_capacity
      → Tells c xs 0 first
      → Tells c xs 1 second
      → Ensures
          (Is contents xs m)
          (choose_region c flash first second)
          (λ _. Is contents xs (recovered c region generation es unusable))
          (FlashFails contents xs)
  unfolding choose_region second_is_newer
  choose_region-Ensures m zero generation first second k sized t0 t1 =
      let taken = Region-taken ok xs 0 generation es k.newest in
      let valid : first.is_valid ≡ true = t0.0 ∙ taken.0 in
      let number : first.generation ≡ generation = t0.1 valid ∙ taken.1 in
      let less = older_info c xs generation 1 second t1 k.older in
      if_false-Ensures (not first.is_valid && not second.is_valid) _ _ (ground (arith, valid)) (
        if_false-Ensures
          (first.is_valid && second.is_valid && first.generation == second.generation) _ _
          (ground (arith, valid, number, less))
          (if_false-Ensures (second_is_newer c flash first second) _ _
            (ground (arith, valid, number, less))
            (rw number (
              select_then-Ensures m 0 generation second.is_valid 1 second.generation k.newest k.tail
                sized))))
  choose_region-Ensures m (suc zero) generation first second k sized t0 t1 =
      let taken = Region-taken ok xs 1 generation es k.newest in
      let valid : second.is_valid ≡ true = t1.0 ∙ taken.0 in
      let number : second.generation ≡ generation = t1.1 valid ∙ taken.1 in
      let less = older_info c xs generation 0 first t0 k.older in
      if_false-Ensures (not first.is_valid && not second.is_valid) _ _ (ground (arith, valid)) (
        if_false-Ensures
          (first.is_valid && second.is_valid && first.generation == second.generation) _ _
          (ground (arith, valid, number, less))
          (if_true-Ensures (second_is_newer c flash first second) _ _
            (ground (arith, valid, number, less))
            (rw number (
              select_then-Ensures m 1 generation first.is_valid 0 first.generation k.newest k.tail
                sized))))
  choose_region-Ensures m (suc (suc n)) generation first second k sized t0 t1 =
      absurd (omega (arith, k.one_of_two))

  mount_existing-Ensures :
      (m : JournalMemory) (region generation : ℕ)
      → Keeps c xs region generation es unusable
      → length m.mirror ≡ c.logical_capacity
      → Ensures
          (Is contents xs m)
          (mount_existing c flash)
          (λ _. Is contents xs (recovered c region generation es unusable))
          (FlashFails contents xs)
  unfolding mount_existing
  mount_existing-Ensures m region generation k sized =
      >>=-Ensures (λ info w. Tells c xs 0 info × Is contents xs m w)
        (inspect_region-Ensures ok flash law xs m 0)
        (λ first.
          >>=-Ensures (λ info w. Tells c xs 0 first × (Tells c xs 1 info × Is contents xs m w))
            (assuming (λ t0.
              adapt (inspect_region-Ensures ok flash law xs m 1) (λ w h. h) (λ info w h. (t0, h))
                (λ e w h. h)))
            (λ second. assuming (λ t0.
              assuming
                (λ t1. choose_region-Ensures m region generation first second k sized t0 t1))))

  -- A mount, with a valid mirror, of a flash that keeps a journal reproduces its mirror and its fields from the entries of the
  -- newest region, or fails with an error of the flash; the contents stay as they are.
  pub mount-Recovers :
      (region generation : ℕ)
      → Keeps c xs region generation es unusable
      → (mirror : Span ℕ) (s : S) → Span.valid mirror ≡ true
      → Span.size mirror ≡ c.logical_capacity
      → contents s ≡ xs
      → Recovers contents xs (recovered c region generation es unusable) (mount c flash mirror s)
  unfolding mount
  mount-Recovers region generation k mirror s valid size here =
      let test : (not (Span.valid mirror) || not (Span.size mirror == c.logical_capacity)) ≡ false =
        ground (arith, valid, size) in
      rw test (
        handed_out (mount_existing c flash (fresh c flash (Span.elements mirror) s)) (
          (mount_existing-Ensures (fresh c flash (Span.elements mirror) s).memory region generation
              k (length-elements mirror valid ∙ size)).apply
            (fresh c flash (Span.elements mirror) s) (here, refl)))
    where
      handed_out :
          (out : Result Unit JournalError × World S)
          → Post
              (λ _. Is contents xs (recovered c region generation es unusable))
              (FlashFails contents xs)
              out
          → Recovers contents xs
              (recovered c region generation es unusable)
              (elim out.0 [ success _ ↦ success out.1.memory | failure e ↦ failure e ], out.1.flash)
      handed_out (success _, w) h = (h.1, h.0)
      handed_out (failure e, w) h = h
