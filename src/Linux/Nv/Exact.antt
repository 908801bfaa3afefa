-- ===== src/Linux/Nv/Exact.antt =====
-- The positioned loops on a file that obeys POSIX: they move exactly what they were asked to.
use ecu_drivers.Prelude.{
  ℕ, zero, suc, ◌+◌, ◌-◌, ◌≤◌, ◌≡◌, ◌∙◌, sym, ap, ap₂, List, [], ◌∷◌, ◌++◌, ◌==◌, arith, length,
  take, drop, take-drop, slice, slice-zero, slice-add, store, store-nil, store-append, length-take,
  length-drop, if◌then◌else◌,
}
use ecu_drivers.Foundation.Result.{Result}
use ecu_drivers.Foundation.Action.{pure, fail, ◌>>=◌}
use ecu_drivers.Foundation.Action.Rules.{
  Ensures, pure-Ensures, fail-Ensures, >>=-Ensures, if-Ensures, adapt,
}
use ecu_drivers.Nv.Lawful.{AgreeOutside}
use ecu_drivers.Nv.Journal.Durable.Changes.{
  AgreeOutside-wider, AgreeOutside-trans, AgreeOutside-store,
}
use ecu_drivers.Linux.Io.{
  call-Ensures, Answer, moved, interrupted, failed, System, pread_exact, pwrite_exact,
}

module _ {F : Type 0} (contents : F → List ℕ) where
  -- a read gives a prefix of what was wanted and changes nothing
  abbrev pub PreadOutcome : ℕ → ℕ → F → Answer (List ℕ) × F → Type 0
  PreadOutcome offset size f (Answer.moved bytes, f') =
      (length bytes ≤ size)
      × (bytes ≡ slice (contents f) offset (length bytes))
      × (contents f' ≡ contents f)
  PreadOutcome offset size f (Answer.interrupted, f') = contents f' ≡ contents f
  PreadOutcome offset size f (Answer.failed e, f') = contents f' ≡ contents f

  -- a write puts a prefix of the bytes, and nothing where it fails
  abbrev pub PwriteOutcome : ℕ → List ℕ → F → Answer ℕ × F → Type 0
  PwriteOutcome offset input f (Answer.moved written, f') =
      (written ≤ length input) × (contents f' ≡ store (contents f) offset (take written input))
  PwriteOutcome offset input f (Answer.interrupted, f') = contents f' ≡ contents f
  PwriteOutcome offset input f (Answer.failed e, f') = contents f' ≡ contents f

  -- What POSIX says of the calls on an open regular file, whose contents are what it reads as over
  -- all the offsets that the system has, with zeros behind its end.
  pub record IsPosix (sys : System F) : Type 0 where
    pub preads : (offset size : ℕ) (f : F) → PreadOutcome offset size f (sys.pread offset size f)
    pub pwrites :
        (offset : ℕ) (input : List ℕ) (f : F)
        → PwriteOutcome offset input f (sys.pwrite offset input f)
    pub fdatasyncs : (f : F) → contents (sys.fdatasync f).1 ≡ contents f

pub none : (xs : List ℕ) (offset size : ℕ) → size ≡ 0 → [] ≡ slice xs offset size
none xs offset size e = sym (ap (λ (n : ℕ). slice xs offset n) e ∙ slice-zero xs offset)

pub all :
    (xs : List ℕ) (offset : ℕ) (input : List ℕ) → length input ≡ 0 → store xs offset input ≡ xs
all xs offset [] e = store-nil xs offset
all xs offset (x ∷ input) e = absurd (omega (arith, e))

module _ {F : Type 0} {contents : F → List ℕ} (sys : System F) (posix : IsPosix contents sys) where
  -- the contents are these
  abbrev pub Has : List ℕ → F → Type 0
  Has xs f = contents f ≡ xs

  -- what is known behind an answer to `pread`
  abbrev Told : List ℕ → ℕ → ℕ → Answer (List ℕ) → F → Type 0
  Told xs offset size (Answer.moved bytes) f =
      (length bytes ≤ size) × (bytes ≡ slice xs offset (length bytes)) × Has xs f
  Told xs offset size Answer.interrupted f = Has xs f
  Told xs offset size (Answer.failed e) f = Has xs f

  told :
      (xs : List ℕ) (offset size : ℕ) (f : F)
      → Has xs f
      → (out : Answer (List ℕ) × F) → PreadOutcome contents offset size f out
      → Told xs offset size out.0 out.1
  told xs offset size f h (Answer.moved bytes, f') o =
      (o.0, o.1 ∙ ap (λ l. slice l offset (length bytes)) h, o.2 ∙ h)
  told xs offset size f h (Answer.interrupted, f') o = o ∙ h
  told xs offset size f h (Answer.failed e, f') o = o ∙ h

  -- `size` bytes at `offset` are read exactly, or the call fails; the contents stay.
  abbrev Reads : List ℕ → ℕ → ℕ → (F → Result (List ℕ) ℕ × F) → Type 0
  Reads xs offset size m =
      Ensures (Has xs) m (λ bytes f. (bytes ≡ slice xs offset size) × Has xs f) (λ _. Has xs)

  pread_round :
      (xs : List ℕ) (offset size : ℕ) (later : ℕ → ℕ → F → Result (List ℕ) ℕ × F)
      → ((o n : ℕ) → Reads xs o n (later o n))
      → (answer : Answer (List ℕ))
      → Ensures
          (Told xs offset size answer)
          (elim answer [
            | moved bytes ↦
                if length bytes == 0
                then fail sys.eio
                else (later (offset + length bytes) (size - length bytes) >>= λ l.
                    pure (bytes ++ l))
            | interrupted ↦ later offset size
            | failed e ↦ fail e
          ])
          (λ bytes f. (bytes ≡ slice xs offset size) × Has xs f)
          (λ _. Has xs)
  pread_round xs offset size later h (Answer.moved bytes) =
      if-Ensures (length bytes == 0) (λ _. fail-Ensures sys.eio (λ f k. k.2))
        (λ _. assuming_told (λ prefix.
          >>=-Ensures
            (λ l f. (l ≡ slice xs (offset + length bytes) (size - length bytes)) × Has xs f)
            (h (offset + length bytes) (size - length bytes))
            (λ l. pure-Ensures _ (bytes ++ l) (λ f k. (
              ap₂ (λ a b. a ++ b) prefix.1 k.0
                  ∙ sym (slice-add xs offset (length bytes) (size - length bytes))
                  ∙ ap (λ (n : ℕ). slice xs offset n)
                      (let e : length bytes + (size - length bytes) ≡ size =
                          omega (arith, prefix.0) in
                        e),
              k.1,
            )))))
    where
      assuming_told :
          {R : List ℕ → F → Type 0} {m : F → Result (List ℕ) ℕ × F}
          → ((length bytes ≤ size) × (bytes ≡ slice xs offset (length bytes))
              → Ensures (Has xs) m R (λ _. Has xs))
          → Ensures (Told xs offset size (Answer.moved bytes)) m R (λ _. Has xs)
      assuming_told k = record { apply = λ f t. (k (t.0, t.1)).apply f t.2 }
  pread_round xs offset size later h Answer.interrupted = h offset size
  pread_round xs offset size later h (Answer.failed e) = fail-Ensures e (λ f k. k)

  pub pread_exact-Ensures :
      (fuel : ℕ) (xs : List ℕ) (offset size : ℕ)
      → Reads xs offset size (pread_exact sys fuel offset size)
  unfolding pread_exact
  pread_exact-Ensures zero xs offset size =
      if-Ensures (size == 0)
        (λ e. pure-Ensures _ [] (λ f h. (none xs offset size (ground (arith, e)), h)))
        (λ _. fail-Ensures _ (λ f h. h))
  pread_exact-Ensures (suc fuel) xs offset size =
      if-Ensures (size == 0)
        (λ e. pure-Ensures _ [] (λ f h. (none xs offset size (ground (arith, e)), h)))
        (λ _.
          call-Ensures (Told xs offset size)
            (λ f h. told xs offset size f h (sys.pread offset size f) (posix.preads offset size f))
            (pread_round xs offset size (pread_exact sys fuel)
              (λ o n. pread_exact-Ensures fuel xs o n)))

  -- what is known behind an answer to `pwrite`
  abbrev Put : List ℕ → ℕ → List ℕ → Answer ℕ → F → Type 0
  Put xs offset input (Answer.moved written) f =
      (written ≤ length input) × Has (store xs offset (take written input)) f
  Put xs offset input Answer.interrupted f = Has xs f
  Put xs offset input (Answer.failed e) f = Has xs f

  put :
      (xs : List ℕ) (offset : ℕ) (input : List ℕ) (f : F)
      → Has xs f
      → (out : Answer ℕ × F) → PwriteOutcome contents offset input f out
      → Put xs offset input out.0 out.1
  put xs offset input f h (Answer.moved written, f') o =
      (o.0, o.1 ∙ ap (λ l. store l offset (take written input)) h)
  put xs offset input f h (Answer.interrupted, f') o = o ∙ h
  put xs offset input f h (Answer.failed e, f') o = o ∙ h

  -- The bytes are put at `offset`, or the call fails and has changed no other bytes.
  abbrev pub Writes : List ℕ → ℕ → List ℕ → (F → Result Unit ℕ × F) → Type 0
  Writes xs offset input m =
      Ensures (Has xs) m (λ _. Has (store xs offset input))
        (λ _ f. AgreeOutside offset (length input) xs (contents f))

  pub untouched :
      (xs : List ℕ) (offset size : ℕ) (f : F) → Has xs f → AgreeOutside offset size xs (contents f)
  untouched xs offset size f h j n o = ap (λ l. slice l j n) h

  pwrite_round :
      (xs : List ℕ) (offset : ℕ) (input : List ℕ) (later : ℕ → List ℕ → F → Result Unit ℕ × F)
      → ((ys : List ℕ) (o : ℕ) (l : List ℕ) → Writes ys o l (later o l))
      → (answer : Answer ℕ)
      → Ensures
          (Put xs offset input answer)
          (elim answer [
            | moved written ↦
                if written == 0 then fail sys.eio else later (offset + written) (drop written input)
            | interrupted ↦ later offset input
            | failed e ↦ fail e
          ])
          (λ _. Has (store xs offset input))
          (λ _ f. AgreeOutside offset (length input) xs (contents f))
  pwrite_round xs offset input later h (Answer.moved written) =
      if-Ensures (written == 0)
        (λ e. fail-Ensures sys.eio (λ f k. untouched xs offset (length input) f (
          k.1
          ∙ ap (λ (n : ℕ). store xs offset (take n input))
              (let z : written ≡ 0 = ground (arith, e) in z)
          ∙ store-nil xs offset)))
        (λ _. record { apply = λ f k. (step k.0).apply f k.1 })
    where
      first : List ℕ
      first = take written input

      step :
          written ≤ length input
          → Ensures
              (Has (store xs offset first))
              (later (offset + written) (drop written input))
              (λ _. Has (store xs offset input))
              (λ _ f. AgreeOutside offset (length input) xs (contents f))
      step fits =
          adapt (h (store xs offset first) (offset + written) (drop written input)) (λ f q. q)
            (λ _ f q.
              q
              ∙ ap (λ (n : ℕ). store (store xs offset first) (offset + n) (drop written input))
                  (sym size)
              ∙ store-append xs offset first (drop written input)
              ∙ ap (λ l. store xs offset l) (take-drop written input))
            (λ e f q.
              AgreeOutside-trans xs (store xs offset first) (contents f) offset (length input)
                (AgreeOutside-wider _ _ _ _ _ _ (AgreeOutside-store xs offset first) (omega arith)
                  (omega (arith, size, fits)))
                (AgreeOutside-wider _ _ _ _ _ _ q (omega arith)
                  (omega (arith, fits, length-drop written input))))
        where
          size : length first ≡ written
          size = omega (arith, length-take written input, fits)
  pwrite_round xs offset input later h Answer.interrupted = h xs offset input
  pwrite_round xs offset input later h (Answer.failed e) =
      fail-Ensures e (λ f k. untouched xs offset (length input) f k)

  pub pwrite_exact-Ensures :
      (fuel : ℕ) (xs : List ℕ) (offset : ℕ) (input : List ℕ)
      → Writes xs offset input (pwrite_exact sys fuel offset input)
  unfolding pwrite_exact
  pwrite_exact-Ensures zero xs offset input =
      if-Ensures (length input == 0)
        (λ e. pure-Ensures _ tt (λ f h. h ∙ sym (all xs offset input (ground (arith, e)))))
        (λ _. fail-Ensures _ (λ f h. untouched xs offset (length input) f h))
  pwrite_exact-Ensures (suc fuel) xs offset input =
      if-Ensures (length input == 0)
        (λ e. pure-Ensures _ tt (λ f h. h ∙ sym (all xs offset input (ground (arith, e)))))
        (λ _.
          call-Ensures (Put xs offset input)
            (λ f h.
              put xs offset input f h (sys.pwrite offset input f) (posix.pwrites offset input f))
            (pwrite_round xs offset input (pwrite_exact sys fuel)
              (λ ys o l. pwrite_exact-Ensures fuel ys o l)))
