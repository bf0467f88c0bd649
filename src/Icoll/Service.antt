-- ===== src/Icoll/Service.antt =====
-- Taking a vector and acknowledging its level (hw/intc/stmp3770_icoll.c).
use emu_gii.Prelude.{
  ℕ, ◌+◌, ◌/◌, ◌<◌, ◌^◌, ◌≡◌, refl, sym, subst, ◌∙◌, ap, true, false, not, ◌||◌, inl, inr, ltb,
  ◌==◌, if◌then◌else◌, List, length, get_or, set, length-set, get_or-set, get_or_ext, arith,
  bit_and, Bool-cases,
}
use emu_gii.Bits.{bit-pow, bit_and-le_right, pow-lt}
use emu_gii.Reg.{◌>>>◌, alias_exact}
use emu_gii.Icoll.State.{Icoll, level_of, priority_of, field_of}
use emu_gii.Icoll.Update.{update, is_multicycle}
use emu_gii.Icoll.Control.{enter_service}
use emu_gii.Icoll.Bus.{decode, write, write_word, ack_levels}
use emu_gii.Icoll.Frame.{Regs, update-regs_of}
use emu_gii.Icoll.Invariant.{IsValid}
use emu_gii.Icoll.Levels.{ack_levels-length, get_or-ack_levels}
use emu_gii.Icoll.Nesting.{update-Delivers}

level_of-lt : (s : Icoll) (source : ℕ) → level_of s source < 4
unfolding level_of
level_of-lt s source = omega (arith, bit_and-le_right (priority_of s source >>> field_of source) 3)

update-level_active : (s : Icoll) → (update s).level_active ≡ s.level_active
update-level_active s = ap (λ (r : Regs). r.level_active) (update-regs_of s)

-- The state once the pending vector is in service.
abbrev entered : Icoll → Icoll
entered s = record s {
  level_active = set s.level_active (level_of s s.vector) (s.vector + 1);
  current_level = level_of s s.vector;
  vector_pending = false;
}

enter_service-entered : (s : Icoll) → s.vector_pending ≡ true → enter_service s ≡ entered s
unfolding enter_service
enter_service-entered s pending = rw pending refl

-- Marking a free level and acknowledging it leaves the levels as they were.
ack-mark :
    (active : List ℕ) (level x : ℕ)
    → length active ≡ 4
    → level < 4
    → get_or active level 0 ≡ 0
    → ack_levels (2 ^ level) (set active level x) ≡ active
ack-mark active level x size h free =
    get_or_ext 0 (ack_levels (2 ^ level) (set active level x)) active (lengths ∙ marked_size)
      λ i below. ground (
        arith,
        get_or-ack_levels (2 ^ level) (set active level x) i,
        bit-pow level i,
        get_or-set active level i x 0,
        lengths,
        marked_size,
      )
  where
    marked_size : length (set active level x) ≡ length active
    marked_size = length-set active level x

    lengths : length (ack_levels (2 ^ level) (set active level x)) ≡ length (set active level x)
    lengths = ack_levels-length (2 ^ level) (set active level x)

level_of-update : (t : Icoll) (source : ℕ) → level_of (update t) source ≡ level_of t source
unfolding level_of
level_of-update t source =
    ap (λ (r : Regs). bit_and (get_or r.priority (source / 4) 0 >>> field_of source) 3)
      (update-regs_of t)

level_of-entered : (s : Icoll) (source : ℕ) → level_of (entered s) source ≡ level_of s source
unfolding level_of
level_of-entered s source = refl

-- What may interrupt the service that was entered: a vector of a higher level.
entered-above :
    (s : Icoll)
    → is_multicycle s.fsm_state ≡ false
    → length s.level_active ≡ 4
    → (update (entered s)).vector_pending ≡ true
    → level_of s s.vector < level_of (update (entered s)) (update (entered s)).vector
entered-above s single size again =
    let v = (update (entered s)).vector in
    let level = level_of s s.vector in
    let marked : get_or (set s.level_active level (s.vector + 1)) level 0 ≡ s.vector + 1 = ground (
      arith,
      get_or-set s.level_active level level (s.vector + 1) 0,
      size,
      level_of-lt s s.vector,
    ) in
    let over =
      (update-Delivers (entered s) single refl again).above level (level_of-lt s s.vector)
        (λ e. omega (arith, e, marked)) in
    omega (arith, over, level_of-update (entered s) v, level_of-entered s v)

-- The handler's writes of VECTOR and LEVELACK.
write_vector : (now x : ℕ) (s : Icoll) → write now s 0x000 x 4 ≡ update (enter_service s)
unfolding write decode write_word alias_exact
write_vector now x s = refl

write_levelack :
    (now val : ℕ) (s : Icoll)
    → val < 2 ^ 32
    → write now s 0x010 val 4 ≡ update (record s { level_active = ack_levels val s.level_active })
unfolding write decode write_word alias_exact
write_levelack now val s h =
    ap (λ (v : ℕ). update (record s { level_active = ack_levels v s.level_active })) (omega arith)

-- The CPU takes the pending vector of a valid state, whose level is free, by a write of VECTOR:
-- the vector is then in service at its level and the other levels are as before, and only a
-- vector of a higher level may be pending. It ends the service by a write of the mask of the
-- level to LEVELACK: the levels in service are then what they were before.
pub service_roundtrip :
    (now x l : ℕ) (s : Icoll)
    → IsValid s
    → s.vector_pending ≡ true
    → get_or s.level_active (level_of s s.vector) 0 ≡ 0
    → l < 4
    → let level = level_of s s.vector in
      let taken = write now s 0x000 x 4 in
      (get_or taken.level_active l 0
        ≡ (if l == level then s.vector + 1 else get_or s.level_active l 0))
      × ((not taken.vector_pending || ltb level (level_of taken taken.vector)) ≡ true)
      × ((write now taken 0x010 (2 ^ level) 4).level_active ≡ s.level_active)
service_roundtrip now x l s v pending free below =
    let level = level_of s s.vector in
    let size = v.ready.regs.5 in
    let h = level_of-lt s s.vector in
    subst
      (λ (taken : Icoll).
        (get_or taken.level_active l 0
          ≡ (if l == level then s.vector + 1 else get_or s.level_active l 0))
        × ((not taken.vector_pending || ltb level (level_of taken taken.vector)) ≡ true)
        × ((write now taken 0x010 (2 ^ level) 4).level_active ≡ s.level_active))
      (sym (write_vector now x s ∙ ap update (enter_service-entered s pending)))
      (
        ap (λ (xs : List ℕ). get_or xs l 0) (update-level_active (entered s))
            ∙ ground (arith, get_or-set s.level_active level l (s.vector + 1) 0, size, below),
        higher,
        ap (λ (t : Icoll). t.level_active)
              (write_levelack now (2 ^ level) (update (entered s)) (pow-lt level 32 (omega arith)))
            ∙ update-level_active _
            ∙ ap (ack_levels (2 ^ level)) (update-level_active (entered s))
            ∙ ack-mark s.level_active level (s.vector + 1) size h free,
      )
  where
    higher :
        (not (update (entered s)).vector_pending
          || ltb (level_of s s.vector) (level_of (update (entered s)) (update (entered s)).vector))
        ≡ true
    higher = elim (Bool-cases (update (entered s)).vector_pending) [
      | inl again ↦ ground (arith, entered-above s v.ready.single v.ready.regs.5 again)
      | inr quiet ↦ ground (arith, quiet)
    ]
