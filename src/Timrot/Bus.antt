-- ===== src/Timrot/Bus.antt =====
-- The memory-mapped registers of hw/timer/stmp3770_timer.c, and its reset.
use emu_gii.Prelude.{
  ℕ, bit_and, bit_or, bit_xor, true, false, not, ◌&&◌, ◌==◌, if◌then◌else◌, for_below,
}
use emu_gii.Bits.{bit}
use emu_gii.Reg.{u32, not32, has, ◌<<<◌, Alias, alias_exact, base_of}
use emu_gii.Timrot.State.{
  PtimerOps, Channel, Filter, Timrot, num_timers, rotctrl_sftrst, rotctrl_clkgate,
  rotctrl_present_mask, rotctrl_writable_mask, timctrl3_duty_valid, is_duty_cycle, change,
  update_irq,
}
use emu_gii.Timrot.Count.{configure, rearm_rotary}

-- `base` of each register; a timer's by its index.
pub data Register : Type 0 where
  rotctrl rotcount version bad : Register
  timctrl timcount : ℕ → Register

unfoldable pub decode : ℕ → Register
decode base =
    if base == 0x000
    then Register.rotctrl
    else if base == 0x010
    then Register.rotcount
    else if base == 0x0A0
    then Register.version
    else if base == 0x030
    then Register.timcount 0
    else if base == 0x050
    then Register.timcount 1
    else if base == 0x070
    then Register.timcount 2
    else if base == 0x090
    then Register.timcount 3
    else if base == 0x020
    then Register.timctrl 0
    else if base == 0x040
    then Register.timctrl 1
    else if base == 0x060
    then Register.timctrl 2
    else if base == 0x080
    then Register.timctrl 3
    else Register.bad

-- What a read returns, and the state after it.
pub record Reading (P : Type 0) : Type 0 where
  pub state : Timrot P
  pub value : ℕ

unfoldable pub apply_write : ℕ → ℕ → ℕ → Alias → ℕ
apply_write reg mask value Alias.plain = bit_or (bit_and value mask) (bit_and reg (not32 mask))
apply_write reg mask value Alias.set = bit_or reg (bit_and value mask)
apply_write reg mask value Alias.clr = bit_and reg (not32 (bit_and value mask))
apply_write reg mask value Alias.tog = bit_xor reg (bit_and value mask)

abbrev pub timctrl_writable_mask : ℕ → ℕ
timctrl_writable_mask idx = if idx == 3 then 0xf_c3ff else 0xc1ff

abbrev blank_filter : Filter
blank_filter = record { stable = false; candidate = false; samples = 0 }

module _ {P : Type 0} (pt : PtimerOps P) where
  unfoldable pub timcount_value : Timrot P → ℕ → ℕ
  timcount_value s idx =
      let t = s.timer idx in
      if is_duty_cycle t idx
      then bit_or (s.duty.low_count <<< 16) s.duty.high_count
      else bit_or (bit_and (u32 (pt.get_count t.ptimer)) 0xFFFF <<< 16)
          (bit_and t.fixed_count 0xFFFF)

  -- A read of ROTCOUNT clears it in the relative mode.
  unfoldable pub read_register : Timrot P → Register → Reading P
  unfolding timcount_value
  read_register s Register.rotctrl = record {
    state = s;
    value =
        bit_or (bit_or (bit_and s.rotctrl (not32 (7 <<< 22))) rotctrl_present_mask)
          (u32 (s.rotary.state <<< 22));
  }
  read_register s Register.rotcount = record {
    state = if bit s.rotctrl 12 then record s { rotcount = 0 } else s;
    value = bit_and s.rotcount 0xFFFF;
  }
  read_register s Register.version = record { state = s; value = s.version }
  read_register s Register.bad = record { state = s; value = 0 }
  read_register s (Register.timctrl n) = record { state = s; value = (s.timer n).timctrl }
  read_register s (Register.timcount n) = record { state = s; value = timcount_value s n }

  unfoldable pub read : Timrot P → ℕ → ℕ → Reading P
  unfolding decode read_register
  read s offset size =
      if size == 4
      then read_register s (decode (base_of offset))
      else record { state = s; value = 0 }

  unfoldable pub reset_channel : Channel P → Channel P
  reset_channel t = update_irq (record t {
    ptimer = pt.set_limit (pt.stop t.ptimer) 0 true;
    timctrl = 0;
    fixed_count = 0;
    running = false;
  })

  -- ROTCTRL, ROTCOUNT and the decoder as the reset leaves them.
  unfoldable pub reset_decoder : Timrot P → Timrot P
  reset_decoder s = record s {
    rotctrl = bit_or (bit_or rotctrl_sftrst rotctrl_clkgate) rotctrl_present_mask;
    rotcount = 0;
    rotary = record {
      state = 0;
      filter_a = blank_filter;
      filter_b = blank_filter;
      initialized = false;
      error = false;
    };
    rotary_tick = pt.set_limit (pt.stop s.rotary_tick) 1 true;
  }

  unfoldable pub reset : Timrot P → Timrot P
  unfolding reset_decoder reset_channel change for_below
  reset s = record (for_below num_timers (λ idx u. change u idx reset_channel) (reset_decoder s)) {
    pwm_input = λ _. false;
    duty = record {
      running_count = 0;
      low_count = 0;
      high_count = 0;
      have_high = false;
      test_signal_level = false;
      test_signal_seen = false;
    };
  }

  -- A change of CLKGATE configures every timer.
  unfoldable pub regate : ℕ → Timrot P → Timrot P
  unfolding configure for_below
  regate old s =
      if has (bit_xor old s.rotctrl) rotctrl_clkgate
      then for_below num_timers (λ idx u. configure pt u idx false) s
      else s

  unfoldable pub write_rotctrl : Timrot P → Alias → ℕ → Timrot P
  unfolding apply_write reset regate rearm_rotary
  write_rotctrl s sct value =
      let old = s.rotctrl in
      let stored = record s { rotctrl = apply_write old rotctrl_writable_mask value sct } in
      let after_reset = reset stored in
      let next =
        if not (bit old 31) && bit stored.rotctrl 31
        then record after_reset { rotctrl = bit_or after_reset.rotctrl rotctrl_sftrst }
        else stored in
      let gated = regate old next in
      if has (bit_xor old gated.rotctrl) 0x403f_0f77 then rearm_rotary pt gated true else gated

  -- `stmp3770_timer_reset_duty_cycle`
  unfoldable pub reset_duty_cycle : Timrot P → Timrot P
  unfolding change
  reset_duty_cycle s =
      record (change s 3
        (λ t. record t { timctrl = bit_and t.timctrl (not32 timctrl3_duty_valid) })) {
          duty = record s.duty {
            running_count = 0;
            low_count = 0;
            high_count = 0;
            have_high = false;
            test_signal_seen = false;
          };
        }

  -- A measurement that a write interrupts is not valid.
  unfoldable pub drop_valid : Timrot P → Timrot P
  unfolding change
  drop_valid s =
      record (change s 3
        (λ t. record t { timctrl = bit_and t.timctrl (not32 timctrl3_duty_valid) })) {
          duty = record s.duty { have_high = false };
        }

  -- `s` has the written value, and `old` is the one before.
  unfoldable pub apply_timctrl : Timrot P → ℕ → ℕ → Timrot P
  unfolding reset_duty_cycle configure drop_valid
  apply_timctrl s idx old =
      let u = if idx == 3 then reset_duty_cycle s else s in
      if has (bit_xor old (s.timer idx).timctrl) 0xf_427f
      then configure pt u idx (is_duty_cycle (u.timer idx) idx)
      else if idx == 3
      then drop_valid s
      else s

  unfoldable pub write_timctrl : Timrot P → ℕ → Alias → ℕ → Timrot P
  unfolding apply_write apply_timctrl change
  write_timctrl s idx sct value =
      let old = (s.timer idx).timctrl in
      let stored =
        change s idx (λ t. record t {
          timctrl = apply_write t.timctrl (timctrl_writable_mask idx) value sct;
        }) in
      change (apply_timctrl stored idx old) idx update_irq

  unfoldable pub write_timcount : Timrot P → ℕ → ℕ → Timrot P
  unfolding change configure
  write_timcount s idx value =
      let stored = change s idx (λ t. record t { fixed_count = bit_and value 0xFFFF }) in
      let t = s.timer idx in
      if bit t.timctrl 7
      then configure pt stored idx true
      else if bit t.timctrl 6
      then configure pt stored idx false
      else stored

  unfoldable pub write_register : Timrot P → Register → Alias → ℕ → Timrot P
  unfolding write_rotctrl write_timctrl write_timcount
  write_register s Register.rotctrl sct value = write_rotctrl s sct value
  write_register s Register.rotcount sct value = s
  write_register s Register.version sct value = s
  write_register s Register.bad sct value = s
  write_register s (Register.timcount n) sct value = write_timcount s n value
  write_register s (Register.timctrl n) sct value = write_timctrl s n sct value

  unfoldable pub write : Timrot P → ℕ → ℕ → ℕ → Timrot P
  unfolding decode write_register
  write s offset value size =
      if size == 4
      then write_register s (decode (base_of offset)) (alias_exact offset) (u32 value)
      else s
