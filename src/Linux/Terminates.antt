-- ===== src/Linux/Terminates.antt =====
-- The positioned loops end when interruptions do: the fuel of `Io` is enough.
use ecu_drivers.Prelude.{
  ℕ, zero, suc, ◌+◌, ◌-◌, ◌≤◌, ◌<◌, ◌≡◌, refl, ap, inl, inr, Bool-cases, true, List, ◌++◌, ◌==◌,
  arith, length, length-drop, drop, min, if◌then◌else◌,
}
use ecu_drivers.Foundation.Result.{Result, success, failure}
use ecu_drivers.Foundation.Action.{Action, pure, fail, ◌>>=◌}
use ecu_drivers.Linux.Io.{Answer, moved, interrupted, failed, System, pread_exact, pwrite_exact}

-- An interruption uses up one that was pending, and no call adds one.
abbrev pub Settles : {F A : Type 0} → (F → ℕ) → F → Answer A × F → Type 0
Settles pending f (moved a, f') = pending f' ≤ pending f
Settles pending f (interrupted, f') = pending f' < pending f
Settles pending f (failed e, f') = Unit

pub record IsSettling {F : Type 0} (pending : F → ℕ) (sys : System F) : Type 0 where
  pub preads : (offset size : ℕ) (f : F) → Settles pending f (sys.pread offset size f)
  pub pwrites :
      (offset : ℕ) (input : List ℕ) (f : F) → Settles pending f (sys.pwrite offset input f)

>>=-agrees :
    {F A B : Type 0} (m m' : Action F ℕ A) (k : A → Action F ℕ B) (f : F)
    → m f ≡ m' f
    → (m >>= k) f ≡ (m' >>= k) f
unfolding ◌>>=◌
>>=-agrees {F} {A} {B} m m' k f e =
    ap
      (λ (out : Result A ℕ × F). elim out.0 as (λ _. Result B ℕ × F) [
        | success a ↦ k a out.1
        | failure x ↦ (failure x, out.1)
      ])
      e

module _ {F : Type 0} (pending : F → ℕ) (sys : System F) (settling : IsSettling pending sys) where
  -- what a round does behind an answer, and with what is left
  abbrev read_round : (ℕ → ℕ → Action F ℕ (List ℕ)) → ℕ → ℕ → Answer (List ℕ) → Action F ℕ (List ℕ)
  read_round later offset n (moved bytes) =
      if length bytes == 0
      then fail sys.eio
      else (later (offset + length bytes) (n - length bytes) >>= λ l. pure (bytes ++ l))
  read_round later offset n interrupted = later offset n
  read_round later offset n (failed e) = fail e

  abbrev write_round : (ℕ → List ℕ → Action F ℕ Unit) → ℕ → List ℕ → Answer ℕ → Action F ℕ Unit
  write_round later offset input (moved written) =
      if written == 0 then fail sys.eio else later (offset + written) (drop written input)
  write_round later offset input interrupted = later offset input
  write_round later offset input (failed e) = fail e

  -- Where the rest of two loops agrees, their rounds do.
  read_round-agrees :
      (bound : ℕ) (later later' : ℕ → ℕ → Action F ℕ (List ℕ)) (offset n : ℕ) (f : F)
      (out : Answer (List ℕ) × F)
      → Settles pending f out
      → 0 < n
      → n + pending f ≤ suc bound
      → ((o k : ℕ) (g : F) → k + pending g ≤ bound → later o k g ≡ later' o k g)
      → read_round later offset n out.0 out.1 ≡ read_round later' offset n out.0 out.1
  read_round-agrees bound later later' offset n f (moved bytes, f') s pos room h =
      elim (Bool-cases (length bytes == 0)) [
        | inl stuck ↦ rw stuck refl
        | inr some_bytes ↦ rw some_bytes (
            >>=-agrees (later (offset + length bytes) (n - length bytes))
              (later' (offset + length bytes) (n - length bytes)) (λ l. pure (bytes ++ l)) f'
              (h (offset + length bytes) (n - length bytes) f'
                (ground (arith, some_bytes, s, pos, room))))
      ]
  read_round-agrees bound later later' offset n f (interrupted, f') s pos room h =
      h offset n f' (omega (arith, s, room))
  read_round-agrees bound later later' offset n f (failed e, f') s pos room h = refl

  write_round-agrees :
      (bound : ℕ) (later later' : ℕ → List ℕ → Action F ℕ Unit) (offset : ℕ) (input : List ℕ)
      (f : F) (out : Answer ℕ × F)
      → Settles pending f out
      → 0 < length input
      → length input + pending f ≤ suc bound
      → ((o : ℕ) (l : List ℕ) (g : F) → length l + pending g ≤ bound → later o l g ≡ later' o l g)
      → write_round later offset input out.0 out.1 ≡ write_round later' offset input out.0 out.1
  write_round-agrees bound later later' offset input f (moved written, f') s pos room h =
      elim (Bool-cases (written == 0)) [
        | inl stuck ↦ rw stuck refl
        | inr some_bytes ↦
            rw
              (
                some_bytes,
                h (offset + written) (drop written input) f'
                    (ground (arith, some_bytes, s, pos, room, length-drop written input)),
              )
              refl
      ]
  write_round-agrees bound later later' offset input f (interrupted, f') s pos room h =
      h offset input f' (omega (arith, s, room))
  write_round-agrees bound later later' offset input f (failed e, f') s pos room h = refl

  pread_exact-fuel :
      (fuel fuel' offset size : ℕ) (f : F)
      → size + pending f ≤ fuel
      → size + pending f ≤ fuel'
      → pread_exact sys fuel offset size f ≡ pread_exact sys fuel' offset size f
  unfolding pread_exact
  pread_exact-fuel zero zero offset size f h h' = refl
  pread_exact-fuel zero (suc fuel') offset size f h h' =
      let none : (size == 0) ≡ true = ground (arith, h) in rw none refl
  pread_exact-fuel (suc fuel) zero offset size f h h' =
      let none : (size == 0) ≡ true = ground (arith, h') in rw none refl
  pread_exact-fuel (suc fuel) (suc fuel') offset size f h h' = elim (Bool-cases (size == 0)) [
    | inl none ↦ rw none refl
    | inr left ↦ rw left (
        read_round-agrees (min fuel fuel') (pread_exact sys fuel) (pread_exact sys fuel') offset
          size f (sys.pread offset size f) (settling.preads offset size f) (ground (arith, left))
          (omega (arith, h, h'))
          (λ o k g room.
            pread_exact-fuel fuel fuel' o k g (omega (arith, room)) (omega (arith, room))))
  ]

  pwrite_exact-fuel :
      (fuel fuel' offset : ℕ) (input : List ℕ) (f : F)
      → length input + pending f ≤ fuel
      → length input + pending f ≤ fuel'
      → pwrite_exact sys fuel offset input f ≡ pwrite_exact sys fuel' offset input f
  unfolding pwrite_exact
  pwrite_exact-fuel zero zero offset input f h h' = refl
  pwrite_exact-fuel zero (suc fuel') offset input f h h' =
      let none : (length input == 0) ≡ true = ground (arith, h) in rw none refl
  pwrite_exact-fuel (suc fuel) zero offset input f h h' =
      let none : (length input == 0) ≡ true = ground (arith, h') in rw none refl
  pwrite_exact-fuel (suc fuel) (suc fuel') offset input f h h' =
      elim (Bool-cases (length input == 0)) [
        | inl none ↦ rw none refl
        | inr left ↦ rw left (
            write_round-agrees (min fuel fuel') (pwrite_exact sys fuel) (pwrite_exact sys fuel')
              offset input f (sys.pwrite offset input f) (settling.pwrites offset input f)
              (ground (arith, left)) (omega (arith, h, h'))
              (λ o l g room.
                pwrite_exact-fuel fuel fuel' o l g (omega (arith, room)) (omega (arith, room))))
      ]

  -- Where only so many interruptions are pending, both positioned loops end: with a round for each byte and each pending
  -- interruption, any more rounds change neither the result nor the state.
  pub exact_terminates :
      (extra offset size : ℕ) (input : List ℕ) (f : F)
      → (pread_exact sys (size + pending f + extra) offset size f
          ≡ pread_exact sys (size + pending f) offset size f)
        × (pwrite_exact sys (length input + pending f + extra) offset input f
            ≡ pwrite_exact sys (length input + pending f) offset input f)
  exact_terminates extra offset size input f = (
    pread_exact-fuel (size + pending f + extra) (size + pending f) offset size f (omega arith)
        (omega arith),
    pwrite_exact-fuel (length input + pending f + extra) (length input + pending f) offset input f
        (omega arith) (omega arith),
  )
