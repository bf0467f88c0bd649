-- ===== src/Rtc/Marks.antt =====
-- The copies between the shadow and the always-on registers come to an end
-- (hw/rtc/stmp3770_rtc.c).
use emu_gii.Prelude.{
  ℕ, zero, suc, ◌+◌, ◌^◌, ◌<◌, ◌≤◌, ◌≡◌, refl, sym, ◌∙◌, ap, bit_and, bit_or, true, false, not,
  ◌&&◌, ltb, ◌==◌, arith, if_split, if◌then◌else◌, Bool-cases, inl, inr, for_below, for_below_inv,
}
use emu_gii.Bits.{
  bit, bit-bit_or, bit-bit_and, bit-complement, bit-pow, bit_of_zero, bit_ext, bit_or-lt,
  bit_and-le_left,
}
use emu_gii.Reg.{not32}
use emu_gii.Rtc.State.{Rtc, num_persistent, shadow_reg, put_shadow_reg, analog_reg, put_analog_reg}
use emu_gii.Rtc.Copy.{ctz, refresh_reg, store_reg, rearm_copy_timer, copy_step}

abbrev pub marks : Rtc → ℕ
marks s = bit_or s.copy_to_shadow s.copy_to_analog

-- `ctz32` finds the lowest mark.
record IsLowest (bits k pending j : ℕ) : Type 0 where
  from : k ≤ j
  none_below : (i : ℕ) → k ≤ i → i < j → bit pending i ≡ false
  found : j < k + bits → bit pending j ≡ true

ctz-IsLowest : (bits k pending : ℕ) → IsLowest bits k pending (ctz bits k pending)
unfolding ctz
ctz-IsLowest zero k pending = record {
  from = omega arith;
  none_below = λ i a b. absurd (omega arith);
  found = λ h. absurd (omega arith);
}
ctz-IsLowest (suc bits) k pending =
    let rest = ctz-IsLowest bits (suc k) pending in
    if_split (IsLowest (suc bits) k pending) (bit pending k) _ _
      (λ on. record {
        from = omega arith;
        none_below = λ i a b. absurd (omega arith);
        found = λ h. on;
      })
      (λ off. record {
        from = omega (arith, rest.from);
        none_below = λ i a b. ground (arith, off, rest.none_below i);
        found = λ h. rest.found (omega (arith, h));
      })

abbrev SameMarks : Rtc → Rtc → Type 0
SameMarks s t = (t.copy_to_shadow ≡ s.copy_to_shadow) × (t.copy_to_analog ≡ s.copy_to_analog)

put_shadow_reg-SameMarks : (s : Rtc) (reg v : ℕ) → SameMarks s (put_shadow_reg s reg v)
unfolding put_shadow_reg
put_shadow_reg-SameMarks s reg v =
    if_split (SameMarks s) (ltb reg num_persistent) _ _ (λ _. (refl, refl))
      (λ _. if_split (SameMarks s) (reg == 6) _ _ (λ _. (refl, refl)) (λ _. (refl, refl)))

put_analog_reg-SameMarks : (s : Rtc) (reg v : ℕ) → SameMarks s (put_analog_reg s reg v)
unfolding put_analog_reg
put_analog_reg-SameMarks s reg v =
    if_split (SameMarks s) (ltb reg num_persistent) _ _ (λ _. (refl, refl))
      (λ _. if_split (SameMarks s) (reg == 6) _ _ (λ _. (refl, refl)) (λ _. (refl, refl)))

-- A copy of register `reg` takes its mark away and no other, and adds none.
record Unmarks (reg : ℕ) (s t : Rtc) : Type 0 where
  unmarked : (k : ℕ) → k < 32 → bit (marks t) k ≡ (bit (marks s) k && not (reg == k))
  shadow_le : t.copy_to_shadow ≤ s.copy_to_shadow
  analog_le : t.copy_to_analog ≤ s.copy_to_analog

cleared : (x reg k : ℕ) → k < 32 → bit (bit_and x (not32 (2 ^ reg))) k ≡ (bit x k && not (reg == k))
cleared x reg k h =
    ground
      (arith, bit-bit_and x (not32 (2 ^ reg)) k, bit-complement 32 (2 ^ reg) k h, bit-pow reg k)

refresh_reg-Unmarks : (s : Rtc) (reg : ℕ) → Unmarks reg s (refresh_reg s reg)
unfolding refresh_reg
refresh_reg-Unmarks s reg =
    let t = put_shadow_reg s reg (analog_reg s reg) in
    let (a, b) = put_shadow_reg-SameMarks s reg (analog_reg s reg) in
    record {
      unmarked = λ k h. ground (
        arith,
        bit-bit_or (bit_and t.copy_to_shadow (not32 (2 ^ reg)))
            (bit_and t.copy_to_analog (not32 (2 ^ reg))) k,
        cleared t.copy_to_shadow reg k h,
        cleared t.copy_to_analog reg k h,
        bit-bit_or s.copy_to_shadow s.copy_to_analog k,
        ap (λ (x : ℕ). bit x k) a,
        ap (λ (x : ℕ). bit x k) b,
      );
      shadow_le = omega (arith, a, bit_and-le_left t.copy_to_shadow (not32 (2 ^ reg)));
      analog_le = omega (arith, b, bit_and-le_left t.copy_to_analog (not32 (2 ^ reg)));
    }

store_reg-Unmarks :
    (s : Rtc) (reg : ℕ) → bit s.copy_to_shadow reg ≡ false → Unmarks reg s (store_reg s reg)
unfolding store_reg
store_reg-Unmarks s reg fresh =
    let t = put_analog_reg s reg (shadow_reg s reg) in
    let (a, b) = put_analog_reg-SameMarks s reg (shadow_reg s reg) in
    record {
      unmarked = λ k h. elim (Bool-cases (reg == k)) [
        | inl here ↦
            let same : reg ≡ k = ground arith in
            let fresh_here = ap (bit s.copy_to_shadow) (sym same) ∙ fresh in
            ground (
              arith,
              bit-bit_or t.copy_to_shadow (bit_and t.copy_to_analog (not32 (2 ^ reg))) k,
              cleared t.copy_to_analog reg k h,
              ap (λ (x : ℕ). bit x k) a,
              fresh_here,
            )
        | inr elsewhere ↦ ground (
          arith,
          bit-bit_or t.copy_to_shadow (bit_and t.copy_to_analog (not32 (2 ^ reg))) k,
          cleared t.copy_to_analog reg k h,
          bit-bit_or s.copy_to_shadow s.copy_to_analog k,
          ap (λ (x : ℕ). bit x k) a,
          ap (λ (x : ℕ). bit x k) b,
        )
      ];
      shadow_le = omega (arith, a);
      analog_le = omega (arith, b, bit_and-le_left t.copy_to_analog (not32 (2 ^ reg)));
    }

-- The marks are bytes, and those below `n` are gone.
record Settling (n : ℕ) (s : Rtc) : Type 0 where
  gone : (k : ℕ) → k < n → bit (marks s) k ≡ false
  shadow_fits : s.copy_to_shadow < 2 ^ 8
  analog_fits : s.copy_to_analog < 2 ^ 8

unmark-Settling :
    (n : ℕ) (s t : Rtc)
    → n < 8
    → Unmarks (ctz 8 0 (marks s)) s t
    → Settling n s
    → Settling (suc n) t
unmark-Settling n s t h u g =
    let reg = ctz 8 0 (marks s) in
    let lowest = ctz-IsLowest 8 0 (marks s) in
    record {
      gone = λ k below. ground (
        arith,
        u.unmarked k (omega arith),
        g.gone k,
        g.gone reg,
        lowest.found,
        lowest.none_below k (omega arith),
      );
      shadow_fits = omega (arith, u.shadow_le, g.shadow_fits);
      analog_fits = omega (arith, u.analog_le, g.analog_fits);
    }

no_marks : (n : ℕ) (s : Rtc) → (marks s == 0) ≡ true → Settling n s → Settling (suc n) s
no_marks n s none_left g = record {
  gone = λ k below.
      let zero_marks : marks s ≡ 0 = ground arith in
      ap (λ (x : ℕ). bit x k) zero_marks ∙ bit_of_zero k;
  shadow_fits = g.shadow_fits;
  analog_fits = g.analog_fits;
}

copy_step-Settling :
    (now n : ℕ) (s : Rtc) → n < 8 → Settling n s → Settling (suc n) (copy_step now s)
unfolding copy_step rearm_copy_timer
copy_step-Settling now n s h g =
    let reg = ctz 8 0 (marks s) in
    let stale = bit s.copy_to_shadow reg in
    let copied : Rtc = if stale then refresh_reg s reg else store_reg s reg in
    let u : Unmarks reg s copied =
      if_split (Unmarks reg s) stale _ _ (λ _. refresh_reg-Unmarks s reg)
        (λ fresh. store_reg-Unmarks s reg fresh) in
    let after = unmark-Settling n s copied h u g in
    if_split (Settling (suc n)) (marks s == 0) _ _ (λ none_left. no_marks n s none_left g)
      (λ _. record {
        gone = after.gone;
        shadow_fits = after.shadow_fits;
        analog_fits = after.analog_fits;
      })

-- From marks of eight bits, eight expiries of the copy timer, at any times and with nothing in
-- between, leave no copy to do.
pub copies_settle :
    (times : ℕ → ℕ) (s : Rtc)
    → s.copy_to_shadow < 2 ^ 8
    → s.copy_to_analog < 2 ^ 8
    → marks (for_below 8 (λ i t. copy_step (times i) t) s) ≡ 0
copies_settle times s shadow analog =
    let settled =
      for_below_inv Settling 8 (λ i t. copy_step (times i) t) s
        (record { gone = λ k h. absurd (omega arith); shadow_fits = shadow; analog_fits = analog })
        (λ i t h g. copy_step-Settling (times i) i t h g) in
    let t = for_below 8 (λ i u. copy_step (times i) u) s in
    bit_ext 8 (marks t) 0
      (bit_or-lt 8 t.copy_to_shadow t.copy_to_analog settled.shadow_fits settled.analog_fits)
      (omega arith) (λ k h. settled.gone k h ∙ sym (bit_of_zero k))
