-- ===== src/Icoll/Bus.antt =====
-- The memory-mapped registers of hw/intc/stmp3770_icoll.c.
use emu_gii.Prelude.{
  ℕ, ◌+◌, ◌-◌, ◌*◌, ◌/◌, ◌^◌, bit_and, bit_or, Bool, true, false, not, ◌&&◌, List, leb, ltb, ◌==◌,
  if◌then◌else◌, get_or, set, for_below,
}
use emu_gii.Bits.{bit}
use emu_gii.Reg.{
  u32, ◌<<<◌, ◌>>>◌, not32, has, Alias, plain, apply_sct, alias_exact, base_of, byte_shift,
  read_subword,
}
use emu_gii.Icoll.State.{
  Icoll, Fsm, idle, multicycle1, multicycle2, pending, isr_running, ctrl_arm_rse_mode,
  ctrl_fiq_final_enable, ctrl_irq_final_enable, level_of, enabled, source_routes_to_fiq,
}
use emu_gii.Icoll.Arbiter.{debug_requests, fiq_pending}
use emu_gii.Icoll.Update.{update}
use emu_gii.Icoll.Control.{ctrl_rw_mask, priority_rw_mask, vbase_rw_mask, enter_service, write_ctrl}

-- The registers of the `switch` statements, by their offsets.
pub data Register : Type 0 where
  vector levelack ctrl stat raw0 raw1 vbase debug debugrd0 debugrd1 debugflag : Register
  debugrdreq0 debugrdreq1 version bad : Register
  priority : ℕ → Register

unfoldable pub decode : ℕ → Register
decode base =
    if base == 0x000
    then Register.vector
    else if base == 0x010
    then Register.levelack
    else if base == 0x020
    then Register.ctrl
    else if base == 0x030
    then Register.stat
    else if base == 0x040
    then Register.raw0
    else if base == 0x050
    then Register.raw1
    else if leb 0x060 base && leb base 0x150
    then Register.priority ((base - 0x060) / 0x10)
    else if base == 0x160
    then Register.vbase
    else if base == 0x170
    then Register.debug
    else if base == 0x180
    then Register.debugrd0
    else if base == 0x190
    then Register.debugrd1
    else if base == 0x1A0
    then Register.debugflag
    else if base == 0x1B0
    then Register.debugrdreq0
    else if base == 0x1C0
    then Register.debugrdreq1
    else if base == 0x1D0
    then Register.version
    else Register.bad

unfoldable pub vector_pitch : Icoll → ℕ
vector_pitch s =
    let field = bit_and s.ctrl 0x00e0_0000 >>> 21 in if leb field 1 then 4 else field * 4

abbrev pub fsm_code : Fsm → ℕ
fsm_code idle = 0x000
fsm_code multicycle1 = 0x001
fsm_code multicycle2 = 0x002
fsm_code pending = 0x004
fsm_code isr_running = 0x020

-- The three loops and fields of `stmp3770_icoll_debug`.
unfoldable pub inservice : Icoll → ℕ
inservice s =
    for_below 4
      (λ level mask. if get_or s.level_active level 0 == 0 then mask else bit_or mask (2 ^ level)) 0

unfoldable pub requests_by_level : Icoll → ℕ → ℕ
requests_by_level s requests =
    for_below 64
      (λ source mask.
        if bit requests source && enabled s source && not (source_routes_to_fiq s source)
        then bit_or mask (2 ^ level_of s source)
        else mask)
      0

abbrev pub is_in_flight : Fsm → Bool
is_in_flight pending = true
is_in_flight isr_running = true
is_in_flight _ = false

unfoldable pub debug_value : Icoll → ℕ
unfolding inservice requests_by_level
debug_value s =
    let level_requests = if is_in_flight s.fsm_state then 2 ^ level_of s s.vector else 0 in
    let fiq_flag = if has s.ctrl ctrl_fiq_final_enable && fiq_pending s then 2 ^ 17 else 0 in
    let irq_flag = if has s.ctrl ctrl_irq_final_enable && s.vector_pending then 2 ^ 16 else 0 in
    bit_or (u32 (inservice s <<< 28)) (
      bit_or (level_requests <<< 24) (
        bit_or (requests_by_level s (debug_requests s) <<< 20)
          (bit_or fiq_flag (bit_or irq_flag (fsm_code s.fsm_state)))))

-- The address that a read of VECTOR returns, in uint32_t arithmetic.
unfoldable pub vector_address : Icoll → ℕ
unfolding vector_pitch
vector_address s = u32 (s.vbase + s.vector * vector_pitch s)

unfoldable pub register_value : Icoll → Register → ℕ
unfolding vector_address debug_value
register_value s Register.vector = vector_address s
register_value s Register.levelack = 0
register_value s Register.ctrl = s.ctrl
register_value s Register.stat = bit_and s.vector 0x3f
register_value s Register.raw0 = bit_and s.raw_status 0xffff_ffff
register_value s Register.raw1 = s.raw_status >>> 32
register_value s Register.vbase = s.vbase
register_value s Register.debug = debug_value s
register_value s Register.debugrd0 = 0xeca9_4567
register_value s Register.debugrd1 = 0x1356_da98
register_value s Register.debugflag = s.debugflag
register_value s Register.debugrdreq0 = u32 (debug_requests s)
register_value s Register.debugrdreq1 = u32 (debug_requests s >>> 32)
register_value s Register.version = 0x0200_0000
register_value s Register.bad = 0
register_value s (Register.priority n) = get_or s.priority n 0

-- Reading VECTOR in ARM read-side-effect mode enters the service.
unfoldable pub read_effect : Icoll → Register → Icoll
read_effect s Register.vector = if has s.ctrl ctrl_arm_rse_mode then update (enter_service s) else s
read_effect s _ = s

pub record ReadResult : Type 0 where
  pub value : ℕ
  pub state : Icoll

unfoldable pub read : Icoll → ℕ → ℕ → ReadResult
unfolding decode register_value read_effect read_subword
read s offset size =
    let reg = decode (base_of offset) in
    if has offset 0xC then record { value = 0; state = s } else record {
      value = read_subword (register_value s reg) offset size;
      state = read_effect s reg;
    }

-- The read-modify-write of an access narrower than a word.
unfoldable pub merge_subword : ℕ → ℕ → ℕ → ℕ → ℕ
merge_subword target value offset size =
    let shift = byte_shift offset in
    let mask = u32 ((1 <<< (size * 8) - 1) <<< shift) in
    bit_or (bit_and target (not32 mask)) (bit_and (value <<< shift) mask)

-- The `size < 4` half of the write handler: the alias bits of the offset are not looked at.
unfoldable pub write_subword : Icoll → Register → ℕ → ℕ → ℕ → Icoll
unfolding merge_subword
write_subword s Register.ctrl value offset size =
    let next = bit_and (merge_subword s.ctrl value offset size) ctrl_rw_mask in
    update (record s { ctrl = next; fiq_enable = bit_and next 0xff })
write_subword s Register.vbase value offset size =
    update (record s { vbase = bit_and (merge_subword s.vbase value offset size) vbase_rw_mask })
write_subword s (Register.priority n) value offset size =
    let next = bit_and (merge_subword (get_or s.priority n 0) value offset size) priority_rw_mask in
    update (record s { priority = set s.priority n next })
write_subword s Register.debugflag value offset size =
    update (record s { debugflag = bit_and (merge_subword s.debugflag value offset size) 0xffff })
write_subword s _ value offset size = s

-- `for (level = 0; level < 4; level++)` of LEVELACK.
unfoldable pub ack_levels : ℕ → List ℕ → List ℕ
ack_levels val active =
    for_below 4 (λ level levels. if bit val level then set levels level 0 else levels) active

abbrev pub is_plain : Alias → Bool
is_plain plain = true
is_plain _ = false

unfoldable pub write_word : ℕ → Icoll → Register → ℕ → Alias → Icoll
unfolding ack_levels
write_word now s Register.vector val alias =
    if not (is_plain alias) then s else update (enter_service s)
write_word now s Register.ctrl val alias = update (write_ctrl now s val alias)
write_word now s Register.vbase val alias =
    update (record s { vbase = bit_and (apply_sct alias s.vbase val) vbase_rw_mask })
write_word now s Register.levelack val alias =
    if not (is_plain alias)
    then s
    else update (record s { level_active = ack_levels val s.level_active })
write_word now s (Register.priority n) val alias =
    let next = bit_and (apply_sct alias (get_or s.priority n 0) val) priority_rw_mask in
    update (record s { priority = set s.priority n next })
write_word now s Register.debugflag val alias =
    update (record s { debugflag = bit_and (apply_sct alias s.debugflag val) 0xffff })
write_word now s _ val alias = s

unfoldable pub write : ℕ → Icoll → ℕ → ℕ → ℕ → Icoll
unfolding decode write_subword write_word
write now s offset value size =
    let reg = decode (base_of offset) in
    if ltb size 4
    then write_subword s reg value offset size
    else write_word now s reg (u32 value) (alias_exact offset)
