-- ===== src/Linux/Stream/InOrder.antt =====
-- What `write_all` and `read_exact` move on a descriptor that keeps the order of bytes.
use mathlib.Core.List.{append_assoc, append-nil}
use ecu_drivers.Prelude.{
  ℕ, zero, suc, ◌+◌, ◌≤◌, ◌≡◌, refl, ◌∙◌, sym, ap, List, [], ◌∷◌, ◌++◌, ◌==◌, arith, length,
  length-drop, take, take-add, drop, take-drop, if◌then◌else◌,
}
use ecu_drivers.Foundation.Result.{Result, success, failure}
use ecu_drivers.Foundation.Action.{Action, fail}
use ecu_drivers.Foundation.Action.Rules.{
  Post, Ensures, pure-Ensures, fail-Ensures, if-Ensures, adapt,
}
use ecu_drivers.Linux.Io.{Answer, moved, interrupted, failed, call-Ensures}
use ecu_drivers.Linux.Stream.{Stream, write_all}

module _ {F : Type 0} (sent : F → List ℕ) where
  -- a write sends a prefix, and nothing where it fails
  abbrev pub WriteOutcome : List ℕ → F → Answer ℕ × F → Type 0
  WriteOutcome input f (moved written, f') =
      (written ≤ length input) × (sent f' ≡ sent f ++ take written input)
  WriteOutcome input f (interrupted, f') = sent f' ≡ sent f
  WriteOutcome input f (failed e, f') = sent f' ≡ sent f

  pub record IsInOrder (stream : Stream F) : Type 0 where
    pub writes : (input : List ℕ) (f : F) → WriteOutcome input f (stream.write input f)

  -- The first bytes of `input` have been sent, and nothing else.
  pub record SentPart (before input : List ℕ) (f : F) : Type 0 where
    pub count : ℕ
    pub at_most : count ≤ length input
    pub sent_is : sent f ≡ before ++ take count input

  -- How sending `input` ends.
  abbrev pub SendOutcome : List ℕ → List ℕ → Result Unit ℕ × F → Type 0
  SendOutcome before input (success _, f) = sent f ≡ before ++ input
  SendOutcome before input (failure e, f) = SentPart before input f

module _ {F : Type 0} {sent : F → List ℕ} (stream : Stream F) (law : IsInOrder sent stream) where
  -- what is known behind an answer to `write`
  abbrev Told : List ℕ → List ℕ → Answer ℕ → F → Type 0
  Told before input (moved written) f =
      (written ≤ length input) × (sent f ≡ before ++ take written input)
  Told before input interrupted f = sent f ≡ before
  Told before input (failed e) f = sent f ≡ before

  told :
      (before input : List ℕ) (f : F)
      → sent f ≡ before
      → (out : Answer ℕ × F) → WriteOutcome sent input f out
      → Told before input out.0 out.1
  told before input f h (moved written, f') o = (o.0, o.1 ∙ ap (λ l. l ++ take written input) h)
  told before input f h (interrupted, f') o = o ∙ h
  told before input f h (failed e, f') o = o ∙ h

  abbrev Sends : List ℕ → List ℕ → Action F ℕ Unit → Type 0
  Sends before input m =
      Ensures (λ f. sent f ≡ before) m (λ _ f. sent f ≡ before ++ input)
        (λ _. SentPart sent before input)

  none_sent : (before input : List ℕ) (f : F) → sent f ≡ before → SentPart sent before input f
  none_sent before input f h = record {
    count = 0;
    at_most = omega arith;
    sent_is = h ∙ sym (append-nil before);
  }

  write_round-Sends :
      (before input : List ℕ) (later : List ℕ → Action F ℕ Unit)
      → ((b l : List ℕ) → Sends b l (later l))
      → (answer : Answer ℕ)
      → Ensures
          (Told before input answer)
          (elim answer [
            | moved written ↦ if written == 0 then fail stream.eio else later (drop written input)
            | interrupted ↦ later input
            | failed e ↦ fail e
          ])
          (λ _ f. sent f ≡ before ++ input)
          (λ _. SentPart sent before input)
  write_round-Sends before input later h (moved written) =
      if-Ensures (written == 0)
        (λ _.
          fail-Ensures stream.eio (λ f k. record { count = written; at_most = k.0; sent_is = k.1 }))
        (λ _. record { apply = λ f k. (step k.0).apply f k.1 })
    where
      step :
          written ≤ length input
          → Ensures
              (λ f. sent f ≡ before ++ take written input)
              (later (drop written input))
              (λ _ f. sent f ≡ before ++ input)
              (λ _. SentPart sent before input)
      step fits =
          adapt (h (before ++ take written input) (drop written input)) (λ f q. q)
            (λ _ f q.
              q
              ∙ append_assoc before (take written input) (drop written input)
              ∙ ap (λ l. before ++ l) (take-drop written input))
            (λ e f q. record {
              count = written + q.count;
              at_most = omega (arith, q.at_most, length-drop written input, fits);
              sent_is =
                  q.sent_is
                  ∙ append_assoc before (take written input) (take q.count (drop written input))
                  ∙ ap (λ l. before ++ l) (sym (take-add written q.count input));
            })
  write_round-Sends before input later h interrupted = h before input
  write_round-Sends before input later h (failed e) =
      fail-Ensures e (λ f k. none_sent before input f k)

  all_sent :
      (before input : List ℕ) (f : F)
      → length input ≡ 0
      → sent f ≡ before
      → sent f ≡ before ++ input
  all_sent before [] f e h = h ∙ sym (append-nil before)
  all_sent before (x ∷ input) f e h = absurd (omega (arith, e))

  write_all-Sends :
      (fuel : ℕ) (before input : List ℕ) → Sends before input (write_all stream fuel input)
  unfolding write_all
  write_all-Sends zero before input =
      if-Ensures (length input == 0)
        (λ e. pure-Ensures _ tt (λ f h. all_sent before input f (ground (arith, e)) h))
        (λ _. fail-Ensures _ (λ f h. none_sent before input f h))
  write_all-Sends (suc fuel) before input =
      if-Ensures (length input == 0)
        (λ e. pure-Ensures _ tt (λ f h. all_sent before input f (ground (arith, e)) h))
        (λ _.
          call-Ensures (Told before input)
            (λ f h. told before input f h (stream.write input f) (law.writes input f))
            (write_round-Sends before input (write_all stream fuel)
              (λ b l. write_all-Sends fuel b l)))

  -- On a descriptor that sends a prefix of what it is given, or nothing where it is interrupted or
  -- fails, `write_all` sends all bytes in order and once if it succeeds, and the first of them if it fails.
  pub write_all_lem :
      (fuel : ℕ) (input : List ℕ) (f : F)
      → SendOutcome sent (sent f) input (write_all stream fuel input f)
  write_all_lem fuel input f =
      go (write_all stream fuel input f) ((write_all-Sends fuel (sent f) input).apply f refl)
    where
      go :
          (out : Result Unit ℕ × F)
          → Post (λ _ g. sent g ≡ sent f ++ input) (λ _. SentPart sent (sent f) input) out
          → SendOutcome sent (sent f) input out
      go (success _, g) p = p
      go (failure e, g) p = p
