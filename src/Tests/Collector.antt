-- ===== src/Tests/Collector.antt =====
-- The collector at concrete states: two enabled sources of the same level, and one of them
-- pending.
use emu_gii.Prelude.{
  ℕ, ◌<◌, ◌+◌, ◌-◌, ◌&&◌, ◌^◌, ◌≡◌, ◌↔◌, refl, true, false, none, for_below, highest_below,
  replicate, set, set-AllEntries, replicate-AllEntries, arith, not, ◌||◌, ltb, ◌==◌, get_or,
  if◌then◌else◌,
}
use emu_gii.Bits.{bit, IsMasked}
use emu_gii.Reg.{has, sct_bit, alias_exact, byte_shift}
use emu_gii.Icoll.State.{
  Icoll, Fsm, level_of, enabled, soft_irq, source_routes_to_fiq, ctrl_gated, ctrl_bypass_fsm,
}
use emu_gii.Icoll.Arbiter.{
  find_candidate, live_requests, highest_active_level, fiq_pending, nesting_blocks,
}
use emu_gii.Icoll.Update.{update}
use emu_gii.Icoll.Control.{reset}
use emu_gii.Icoll.Bus.{write, read, decode}
use emu_gii.Icoll.Priority.{Chooses, eligible, find_candidate-Chooses}
use emu_gii.Icoll.Nesting.{Delivers, update-Delivers, update-pending}
use emu_gii.Icoll.Invariant.{IsValid}
use emu_gii.Icoll.Lines.{LinesFollow, update-LinesFollow}
use emu_gii.Icoll.Settle.{update-IsSettled}
use emu_gii.Icoll.Service.{service_roundtrip}
use emu_gii.Icoll.Merge.{in_field}
use emu_gii.Icoll.Narrow.{writable_bits_of, narrow_write-bits, narrow_write-read_back}
use emu_gii.Icoll.Words.{word_write-bits}
use emu_gii.Icoll.Requests.{FiqSource, fiq_pending_iff}
use emu_gii.Icoll.Machine.{Event, step, Reach, Reach-IsValid, Reach-multicycle_idle}

-- Sources 5 and 9 are enabled at level 2 and requested; both final enables are on.
abbrev two_sources : Icoll
two_sources = record {
  irq = false;
  fiq = false;
  icoll_busy = false;
  ctrl = 0x0003_0000;
  vbase = 0;
  priority = set (set (replicate 16 0) 1 0x0600) 2 0x0600;
  raw_status = 0x220;
  request_holding = 0;
  level_active = replicate 4 0;
  current_level = 0;
  fiq_enable = 0;
  debugflag = 0;
  vector = 0;
  vector_pending = false;
  fsm_state = Fsm.idle;
  selected_vector = 0;
  saved_vector = 0;
  hclk_hz = 24_000_000;
  sftrst_timer = none;
  multicycle_timer = none;
}

-- Source 9 is pending.
abbrev nine_pending : Icoll
nine_pending = record two_sources {
  vector = 9;
  selected_vector = 9;
  vector_pending = true;
  fsm_state = Fsm.pending;
}

nine_pending-IsValid : IsValid nine_pending
nine_pending-IsValid = record {
  ready = record {
    regs = (
      refl,
      refl,
      refl,
      set-AllEntries (IsMasked 0x0f0f_0f0f) (set (replicate 16 0) 1 0x0600) 2 0x0600 refl (
          set-AllEntries (IsMasked 0x0f0f_0f0f) (replicate 16 0) 1 0x0600 refl
            (replicate-AllEntries (IsMasked 0x0f0f_0f0f) 16 refl)),
      omega arith,
      refl,
      replicate-AllEntries (λ x. x < 65) 4 (omega arith),
      refl,
      omega arith,
    );
    vector_fits = omega arith;
    selected_fits = omega arith;
    saved_fits = omega arith;
    single = refl;
    waits = λ on. refl;
  };
  settled = refl;
}

find_candidate-Chooses_example :
    Chooses two_sources 0x220 none 64 (find_candidate two_sources 0x220 none)
find_candidate-Chooses_example = find_candidate-Chooses two_sources 0x220 none

not_gated : has 0x0003_0000 ctrl_gated ≡ false
unfolding has
not_gated = refl

not_bypassed : has 0x0003_0000 ctrl_bypass_fsm ≡ false
unfolding has
not_bypassed = refl

nine-eligible :
    eligible two_sources (live_requests two_sources) (highest_active_level two_sources) 9 ≡ true
unfolding live_requests highest_active_level source_routes_to_fiq enabled level_of nesting_blocks
    soft_irq bit has for_below highest_below
nine-eligible = refl

nine_waits : (update two_sources).vector_pending ≡ true
nine_waits = update-pending two_sources 9 refl not_gated not_bypassed (omega arith) nine-eligible

update-Delivers_example : Delivers two_sources (update two_sources).vector
update-Delivers_example = update-Delivers two_sources refl refl nine_waits

update-pending_example : (update two_sources).vector_pending ≡ true
update-pending_example =
    update-pending two_sources 9 refl not_gated not_bypassed (omega arith) nine-eligible

Reach-IsValid_example : IsValid (step (reset two_sources) (Event.irq_input 5 true))
Reach-IsValid_example =
    Reach-IsValid (Reach.next (Event.irq_input 5 true) (omega arith) Reach.booted)

Reach-multicycle_idle_example :
    step (step (reset two_sources) (Event.irq_input 5 true)) Event.multicycle_expires
    ≡ step (reset two_sources) (Event.irq_input 5 true)
Reach-multicycle_idle_example =
    Reach-multicycle_idle (Reach.next (Event.irq_input 5 true) (omega arith) Reach.booted)

update-LinesFollow_example : LinesFollow (update two_sources)
update-LinesFollow_example = update-LinesFollow two_sources refl

update-IsSettled_example : update (update two_sources) ≡ update two_sources
update-IsSettled_example = update-IsSettled two_sources refl

service_roundtrip_example :
    let level = level_of nine_pending 9 in
    let taken = write 0 nine_pending 0x000 0 4 in
    (get_or taken.level_active 2 0 ≡ (if 2 == level then 10 else 0))
    × ((not taken.vector_pending || ltb level (level_of taken taken.vector)) ≡ true)
    × ((write 0 taken 0x010 (2 ^ level) 4).level_active ≡ replicate 4 0)
unfolding level_of
service_roundtrip_example =
    service_roundtrip 0 0 2 nine_pending nine_pending-IsValid refl refl (omega arith)

fiq_pending_iff_example :
    (fiq_pending two_sources ≡ true) ↔ ((source : ℕ) × FiqSource two_sources source)
fiq_pending_iff_example = fiq_pending_iff two_sources

narrow_write-bits_example : bit (read (write 0 nine_pending 0x061 0xFF 1) 0x060 4).value 12 ≡ (
    if in_field 0x061 1 12 && bit (writable_bits_of (decode 0x060)) 12
    then bit 0xFF (12 - byte_shift 0x061)
    else bit (read nine_pending 0x060 4).value 12)
narrow_write-bits_example =
    narrow_write-bits 0 nine_pending 0x061 0xFF 1 12 nine_pending-IsValid (omega arith)
      (omega arith)

no_alias : has 0x061 0xC ≡ false
unfolding has
no_alias = refl

narrow_write-read_back_example : bit (read (write 0 nine_pending 0x061 0xFF 1) 0x061 1).value 3 ≡ (
    if bit (writable_bits_of (decode 0x060)) (byte_shift 0x061 + 3)
    then bit 0xFF 3
    else bit (read nine_pending 0x061 1).value 3)
narrow_write-read_back_example =
    narrow_write-read_back 0 nine_pending 0x061 0xFF 1 3 nine_pending-IsValid
      (omega arith, omega arith) no_alias (omega arith)

priority_writable : 0 < writable_bits_of (decode 0x060)
unfolding decode
priority_writable = omega arith

word_write-bits_example : bit (read (write 0 nine_pending 0x06C 0x0F0F 4) 0x060 4).value 9 ≡ (
    if bit (writable_bits_of (decode 0x060)) 9
    then sct_bit (alias_exact 0x06C) (bit (read nine_pending 0x060 4).value 9) (bit 0x0F0F 9)
    else bit (read nine_pending 0x060 4).value 9)
word_write-bits_example =
    word_write-bits 0 nine_pending 0x06C 0x0F0F 4 9 nine_pending-IsValid priority_writable
      (omega arith) (omega arith)
