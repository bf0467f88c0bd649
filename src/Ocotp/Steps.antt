-- ===== src/Ocotp/Steps.antt =====
-- What an access can do to the one-time programmable memory (hw/misc/stmp3770_ocotp.c): the
-- elementary changes of its state, and a predicate that each of them keeps.
use emu_gii.Prelude.{
  ℕ, ◌-◌, ◌%◌, if◌then◌else◌, bit_and, ◌≡◌, false, not, bit_or, if_split, ◌||◌, ◌&&◌, ◌==◌, leb,
}
use emu_gii.Bits.{bit}
use emu_gii.Reg.{base_of, u32, not32}
use emu_gii.Ocotp.Fuses.{
  ctrl_error, Ocotp, blow, program_word, unless_locked, set_error, maybe_finish_reload,
  reload_shadows,
}
use emu_gii.Ocotp.Bus.{
  write_custcap, next_ctrl, finish_requested, drop_key, has_key, ctrl_set, ctrl_clr, ctrl_tog,
  write, write_ctrl, write_data, store_ctrl,
}

-- The key is programmed only while bit 4 of LOCK is clear.
pub record IsClosed (P : Ocotp → Type 0) : Type 0 where
  pub on_ctrl : (s : Ocotp) (c : ℕ) → P s → P (record s { ctrl = c })
  pub on_word : (s : Ocotp) (v : ℕ) → P s → P (record s { data_word = v })
  pub on_shadow : (s : Ocotp) (v : ℕ) → P s → P (record s { custcap = v })
  pub on_reload : (s : Ocotp) → P s → P (reload_shadows s)
  pub on_cust : (s : Ocotp) (i v : ℕ) → P s → P (record s { cust = blow s.cust i v })
  pub on_crypto :
      (s : Ocotp) (i v : ℕ)
      → bit s.lock 4 ≡ false
      → P s
      → P (record s { crypto = blow s.crypto i v })
  pub on_rom : (s : Ocotp) (i v : ℕ) → P s → P (record s { rom = blow s.rom i v })
  pub on_custcap : (s : Ocotp) (v : ℕ) → P s → P (record s { otp_custcap = bit_or s.otp_custcap v })
  pub on_lock : (s : Ocotp) (v : ℕ) → P s → P (record s { otp_lock = bit_or s.otp_lock v })

module _ (P : Ocotp → Type 0) (closed : IsClosed P) where
  set_error-kept : (s : Ocotp) → P s → P (set_error s)
  unfolding set_error
  set_error-kept s = closed.on_ctrl s (bit_or s.ctrl ctrl_error)

  unless_locked-kept :
      (s : Ocotp) (n : ℕ) (t : Ocotp) → P s → (bit s.lock n ≡ false → P t) → P (unless_locked s n t)
  unfolding unless_locked
  unless_locked-kept s n t p h =
      if_split P (bit s.lock n) (set_error s) t (λ _. set_error-kept s p) h

  program_word-kept : (s : Ocotp) (addr value : ℕ) → P s → P (program_word s addr value)
  unfolding program_word
  program_word-kept s addr value p =
      if_split P (leb addr 0x03) _ _
        (λ _. unless_locked-kept s addr _ p (λ _. closed.on_cust s addr value p))
        (λ _.
          if_split P (leb addr 0x07) _ _
            (λ _. unless_locked-kept s 4 _ p (λ e. closed.on_crypto s (addr - 0x04) value e p))
            (λ _.
              if_split P (addr == 0x0f) _ _
                (λ _. unless_locked-kept s 9 _ p (λ _. closed.on_custcap s value p))
                (λ _.
                  if_split P (addr == 0x10) _ _ (λ _. closed.on_lock s value p)
                    (λ _.
                      if_split P (leb 0x18 addr && leb addr 0x1a) _ _
                        (λ _. closed.on_rom s (addr - 0x18) value p) (λ _. set_error-kept s p)))))

  drop_key-kept : (s : Ocotp) → P s → P (drop_key s)
  unfolding drop_key
  drop_key-kept s p = if_split P (not (bit s.ctrl 9)) _ s (λ _. closed.on_ctrl s _ p) (λ _. p)

  write_data-kept : (s : Ocotp) (value : ℕ) → P s → P (write_data s value)
  unfolding write_data
  write_data-kept s value p =
      let t = record s { data_word = value } in
      let stored : P t = closed.on_word s value p in
      let programmed = program_word t (bit_and s.ctrl 0x1f) value in
      if_split P (bit s.ctrl 9 || not (has_key s.ctrl)) t (drop_key programmed) (λ _. stored)
        (λ _. drop_key-kept programmed (program_word-kept t (bit_and s.ctrl 0x1f) value stored))

  maybe_finish_reload-kept : (s : Ocotp) → P s → P (maybe_finish_reload s)
  unfolding maybe_finish_reload
  maybe_finish_reload-kept s p =
      if_split P (bit s.ctrl 13 && not (bit s.ctrl 12)) _ s
        (λ _. closed.on_ctrl (reload_shadows s) _ (closed.on_reload s p)) (λ _. p)

  finish_requested-kept : (s : Ocotp) → P s → P (finish_requested s)
  unfolding finish_requested
  finish_requested-kept s p =
      if_split P (bit s.ctrl 13) (maybe_finish_reload s) s (λ _. maybe_finish_reload-kept s p)
        (λ _. p)

  store_ctrl-kept : (s : Ocotp) (w : ℕ) → P s → P (store_ctrl s w)
  unfolding store_ctrl
  store_ctrl-kept s w p =
      finish_requested-kept (record s { ctrl = next_ctrl s.ctrl w }) (closed.on_ctrl s _ p)

  write_ctrl-kept : (s : Ocotp) (sct value : ℕ) → P s → P (write_ctrl s sct value)
  unfolding write_ctrl
  write_ctrl-kept s sct value p =
      let cleared = if bit value 9 then bit_and s.ctrl (not32 ctrl_error) else s.ctrl in
      let t = record s { ctrl = cleared } in
      if_split P (sct == 0x0) _ _ (λ _. store_ctrl-kept s (ctrl_set s.ctrl value) p)
        (λ _.
          if_split P (sct == 0x4) _ _ (λ _. store_ctrl-kept s (ctrl_set s.ctrl value) p)
            (λ _.
              if_split P (sct == 0x8) _ _
                (λ _. store_ctrl-kept t (ctrl_clr s.ctrl value) (closed.on_ctrl s cleared p))
                (λ _.
                  if_split P (sct == 0xC) _ s (λ _. store_ctrl-kept s (ctrl_tog s.ctrl value) p)
                    (λ _. p))))

  write_custcap-kept : (s : Ocotp) (sct value : ℕ) → P s → P (write_custcap s sct value)
  unfolding write_custcap
  write_custcap-kept s sct value p =
      if_split P (not (sct == 0x0)) s _ (λ _. p)
        (λ _.
          if_split P (bit s.lock 7) _ _ (λ _. set_error-kept s p) (λ _. closed.on_shadow s value p))

  pub write-kept : (s : Ocotp) (offset value size : ℕ) → P s → P (write s offset value size)
  unfolding write
  write-kept s offset value size p =
      let sct = offset % 16 in
      if_split P (not (size == 4)) s _ (λ _. p)
        (λ _.
          if_split P (base_of offset == 0x000) _ _ (λ _. write_ctrl-kept s sct (u32 value) p)
            (λ _.
              if_split P (base_of offset == 0x010) _ _
                (λ _. if_split P (sct == 0x0) _ s (λ _. write_data-kept s (u32 value) p) (λ _. p))
                (λ _.
                  if_split P (base_of offset == 0x110) _ s
                    (λ _. write_custcap-kept s sct (u32 value) p) (λ _. p))))
