-- ===== src/Rtc/Lock.antt =====
-- The lock of the seconds counter, LCK_SECS (hw/rtc/stmp3770_rtc.c).
use emu_gii.Prelude.{
  ℕ, zero, suc, ◌+◌, ◌-◌, ◌%◌, ◌^◌, ◌≡◌, refl, ◌∙◌, ap, ap₂, bit_and, bit_or, Bool, true, false,
  not, ◌&&◌, ◌||◌, List, leb, ltb, ◌==◌, length, length-set, get_or, get_or-set_self, get_or-set_ne,
  arith, if_split, if◌then◌else◌,
}
use emu_gii.Bits.{bit, bit-bit_and, bit-complement, bit-pow}
use emu_gii.Reg.{not32}
use emu_gii.Rtc.State.{
  Rtc, num_persistent, is_enabled, msec_resolution, shadow_reg, put_shadow_reg, analog_reg,
  put_analog_reg, update_irq, check_alarm,
}
use emu_gii.Rtc.Copy.{
  refreshed, stored, rearm_copy_timer, queue_shadow_refresh, queue_shadow_write, ctz, refresh_reg,
  store_reg, copy_step,
}
use emu_gii.Rtc.Tick.{tick_second, tick_millisecond, tick_irq, tick_watchdog, tick}

-- LCK_SECS of PERSISTENT0.
abbrev pub locks : List ℕ → Bool
locks persistent = bit (get_or persistent 0 0) 3

-- The lock is in the always-on copy; the shadow has it or is about to be refreshed.
pub record IsLocked (s : Rtc) : Type 0 where
  pub size : length s.persistent ≡ 6
  pub analog_size : length s.analog_persistent ≡ 6
  pub initialized : s.analog_initialized ≡ true
  pub analog_locks : locks s.analog_persistent ≡ true
  pub shadow_locks : (locks s.persistent || bit s.copy_to_shadow 0) ≡ true

-- What the lock depends on, unchanged from `s` to `t`.
abbrev pub Same : Rtc → Rtc → Type 0
Same s t =
    (length t.persistent ≡ length s.persistent)
    × (get_or t.persistent 0 0 ≡ get_or s.persistent 0 0)
    × (length t.analog_persistent ≡ length s.analog_persistent)
    × (get_or t.analog_persistent 0 0 ≡ get_or s.analog_persistent 0 0)
    × (t.analog_initialized ≡ s.analog_initialized)
    × (t.copy_to_shadow ≡ s.copy_to_shadow)

pub unchanged : (s : Rtc) → Same s s
unchanged s = (refl, refl, refl, refl, refl, refl)

pub Same-IsLocked : (s t : Rtc) → Same s t → IsLocked s → IsLocked t
Same-IsLocked s t (size, p, analog_size, a, i, c) l = record {
  size = size ∙ l.size;
  analog_size = analog_size ∙ l.analog_size;
  initialized = i ∙ l.initialized;
  analog_locks = ap (λ (x : ℕ). bit x 3) a ∙ l.analog_locks;
  shadow_locks = ap₂ (λ (x y : ℕ). bit x 3 || bit y 0) p c ∙ l.shadow_locks;
}

pub check_alarm-Same : (s : Rtc) → Same s (check_alarm s)
unfolding check_alarm update_irq
check_alarm-Same s =
    if_split (Same s) (bit (get_or s.persistent 0 0) 2 && s.seconds == s.alarm) _ _
      (λ _. unchanged s) (λ _. unchanged s)

pub queue_shadow_write-Same : (now : ℕ) (s : Rtc) (reg : ℕ) → Same s (queue_shadow_write now s reg)
unfolding queue_shadow_write rearm_copy_timer
queue_shadow_write-Same now s reg =
    if_split (Same s) (bit s.ctrl 6) _ _ (λ _. unchanged s) (λ _. unchanged s)

pub refresh-IsLocked :
    (now : ℕ) (s : Rtc)
    → length s.persistent ≡ 6
    → length s.analog_persistent ≡ 6
    → s.analog_initialized ≡ true
    → locks s.analog_persistent ≡ true
    → IsLocked (queue_shadow_refresh now s)
unfolding queue_shadow_refresh rearm_copy_timer bit
refresh-IsLocked now s size analog_size initialized analog = record {
  size = size;
  analog_size = analog_size;
  initialized = initialized;
  analog_locks = analog;
  shadow_locks = ap (λ b. locks s.persistent || b) all_stale ∙ or_true (locks s.persistent);
}
  where
    all_stale : bit 0xff 0 ≡ true
    all_stale = refl

    or_true : (b : Bool) → (b || true) ≡ true
    or_true true = refl
    or_true false = refl

tick_second-Same : (s : Rtc) → Same s (tick_second s)
unfolding tick_second
tick_second-Same s =
    if_split (Same s) ((s.analog_msec_phase + 1) % 2 ^ 16 == 1000) _ _
      (λ _. if_split (Same s) (is_enabled s) _ _ (λ _. check_alarm-Same _) (λ _. unchanged s))
      (λ _. unchanged s)

tick_millisecond-Same : (s : Rtc) → Same s (tick_millisecond s)
unfolding tick_millisecond
tick_millisecond-Same s =
    if_split (Same s) (leb (msec_resolution s) ((s.msec_resolution_phase + 1) % 2 ^ 8)) _ _
      (λ _. unchanged s) (λ _. unchanged s)

tick_irq-Same : (s : Rtc) → Same s (tick_irq s)
unfolding tick_irq update_irq
tick_irq-Same s = if_split (Same s) (bit s.ctrl 1) _ _ (λ _. unchanged s) (λ _. unchanged s)

tick_watchdog-Same : (s : Rtc) → Same s (tick_watchdog s)
unfolding tick_watchdog
tick_watchdog-Same s =
    if_split (Same s) (bit s.ctrl 4 && not (s.watchdog == 0)) _ _
      (λ _. if_split (Same s) (s.watchdog - 1 == 0) _ _ (λ _. unchanged s) (λ _. unchanged s))
      (λ _. unchanged s)

pub tick-IsLocked : (s : Rtc) → IsLocked s → IsLocked (tick s)
unfolding tick
tick-IsLocked s l =
    let t = tick_second s in
    let second = Same-IsLocked s t (tick_second-Same s) l in
    let u = tick_millisecond t in
    let milli = Same-IsLocked t u (tick_millisecond-Same t) second in
    let irq = Same-IsLocked u (tick_irq u) (tick_irq-Same u) milli in
    if_split IsLocked (not (is_enabled t)) _ _ (λ _. second)
      (λ _.
        Same-IsLocked (tick_irq u) (tick_watchdog (tick_irq u)) (tick_watchdog-Same (tick_irq u))
          irq)

-- Clearing another register's mark leaves that of the first.
other_mark : (marks n : ℕ) → bit (bit_and marks (not32 (2 ^ suc n))) 0 ≡ bit marks 0
other_mark marks n = ground (
  arith,
  bit-bit_and marks (not32 (2 ^ suc n)) 0,
  bit-complement 32 (2 ^ suc n) 0 (omega arith),
  bit-pow (suc n) 0,
)

refreshed-IsLocked : (n : ℕ) (t : Rtc) → IsLocked t → IsLocked (refreshed (suc n) t)
refreshed-IsLocked n t l = record {
  size = l.size;
  analog_size = l.analog_size;
  initialized = l.initialized;
  analog_locks = l.analog_locks;
  shadow_locks = ap (λ b. locks t.persistent || b) (other_mark t.copy_to_shadow n) ∙ l.shadow_locks;
}

-- The copies of the other registers.
put_shadow_reg-Same : (s : Rtc) (n value : ℕ) → Same s (put_shadow_reg s (suc n) value)
unfolding put_shadow_reg
put_shadow_reg-Same s n value =
    if_split (Same s) (ltb (suc n) num_persistent) _ _
      (λ _. (
        length-set s.persistent (suc n) value,
        get_or-set_ne s.persistent (suc n) 0 value 0 (λ e. omega (arith, e)),
        refl,
        refl,
        refl,
        refl,
      ))
      (λ _. if_split (Same s) (suc n == 6) _ _ (λ _. unchanged s) (λ _. unchanged s))

put_analog_reg-Same : (s : Rtc) (n value : ℕ) → Same s (put_analog_reg s (suc n) value)
unfolding put_analog_reg
put_analog_reg-Same s n value =
    if_split (Same s) (ltb (suc n) num_persistent) _ _
      (λ _. (
        refl,
        refl,
        length-set s.analog_persistent (suc n) value,
        get_or-set_ne s.analog_persistent (suc n) 0 value 0 (λ e. omega (arith, e)),
        refl,
        refl,
      ))
      (λ _. if_split (Same s) (suc n == 6) _ _ (λ _. unchanged s) (λ _. unchanged s))

refresh_reg-IsLocked : (s : Rtc) (reg : ℕ) → IsLocked s → IsLocked (refresh_reg s reg)
unfolding refresh_reg put_shadow_reg analog_reg
refresh_reg-IsLocked s zero l = record {
  size = length-set s.persistent 0 (get_or s.analog_persistent 0 0) ∙ l.size;
  analog_size = l.analog_size;
  initialized = l.initialized;
  analog_locks = l.analog_locks;
  shadow_locks =
      ap (λ (x : ℕ). bit x 3 || bit (bit_and s.copy_to_shadow (not32 (2 ^ 0))) 0)
        (get_or-set_self s.persistent 0 (get_or s.analog_persistent 0 0) 0 (omega (arith, l.size)))
      ∙ ap (λ b. b || bit (bit_and s.copy_to_shadow (not32 (2 ^ 0))) 0) l.analog_locks;
}
refresh_reg-IsLocked s (suc n) l =
    let value = analog_reg s (suc n) in
    refreshed-IsLocked n (put_shadow_reg s (suc n) value)
      (Same-IsLocked s (put_shadow_reg s (suc n) value) (put_shadow_reg-Same s n value) l)

-- The shadow is stored only when it is not about to be refreshed, and then it has the lock.
store_reg-IsLocked :
    (s : Rtc) (reg : ℕ) → bit s.copy_to_shadow reg ≡ false → IsLocked s → IsLocked (store_reg s reg)
unfolding store_reg put_analog_reg shadow_reg
store_reg-IsLocked s zero fresh l = record {
  size = l.size;
  analog_size = length-set s.analog_persistent 0 (get_or s.persistent 0 0) ∙ l.analog_size;
  initialized = l.initialized;
  analog_locks =
      ap (λ (x : ℕ). bit x 3)
        (get_or-set_self s.analog_persistent 0 (get_or s.persistent 0 0) 0
          (omega (arith, l.analog_size)))
      ∙ ground (arith, l.shadow_locks);
  shadow_locks = l.shadow_locks;
}
store_reg-IsLocked s (suc n) fresh l =
    let value = shadow_reg s (suc n) in
    Same-IsLocked (put_analog_reg s (suc n) value) (stored (suc n) (put_analog_reg s (suc n) value))
      (unchanged (put_analog_reg s (suc n) value))
      (Same-IsLocked s (put_analog_reg s (suc n) value) (put_analog_reg-Same s n value) l)

pub copy_step-IsLocked : (now : ℕ) (s : Rtc) → IsLocked s → IsLocked (copy_step now s)
unfolding copy_step rearm_copy_timer
copy_step-IsLocked now s l =
    let reg = ctz 8 0 (bit_or s.copy_to_shadow s.copy_to_analog) in
    let stale = bit s.copy_to_shadow reg in
    let copied : IsLocked (if stale then refresh_reg s reg else store_reg s reg) =
      if_split IsLocked stale _ _ (λ _. refresh_reg-IsLocked s reg l)
        (λ fresh. store_reg-IsLocked s reg fresh l) in
    if_split IsLocked (bit_or s.copy_to_shadow s.copy_to_analog == 0) _ _ (λ _. l)
      (λ _. record {
        size = copied.size;
        analog_size = copied.analog_size;
        initialized = copied.initialized;
        analog_locks = copied.analog_locks;
        shadow_locks = copied.shadow_locks;
      })
