-- ===== src/Icoll/Levels.antt =====
-- The levels in service of the collector (hw/intc/stmp3770_icoll.c).
use emu_gii.Prelude.{
  ℕ, suc, ◌<◌, ◌≡◌, refl, ◌∙◌, List, length, get_or, set, length-set, set-AllEntries, get_or-set,
  AllBelow, for_below_inv, if_split, if◌then◌else◌, ltb, ◌&&◌, arith,
}
use emu_gii.Bits.{bit}
use emu_gii.Icoll.Bus.{ack_levels}

pub ack_levels-length : (val : ℕ) (active : List ℕ) → length (ack_levels val active) ≡ length active
unfolding ack_levels
ack_levels-length val active =
    for_below_inv (λ n xs. length xs ≡ length active) 4
      (λ level levels. if bit val level then set levels level 0 else levels) active refl
      (λ level levels h same.
        if_split (λ (xs : List ℕ). length xs ≡ length active) (bit val level) _ _
          (λ _. length-set levels level 0 ∙ same) (λ _. same))

pub ack_levels-AllBelow :
    (val : ℕ) (active : List ℕ) → AllBelow 65 active → AllBelow 65 (ack_levels val active)
unfolding ack_levels
ack_levels-AllBelow val active fits =
    for_below_inv (λ n xs. AllBelow 65 xs) 4
      (λ level levels. if bit val level then set levels level 0 else levels) active fits
      (λ level levels h all.
        if_split (AllBelow 65) (bit val level) _ _
          (λ _. set-AllEntries (λ x. x < 65) levels level 0 (omega arith) all) (λ _. all))

module _ (val : ℕ) (active : List ℕ) where
  -- After the rounds below `n`, the levels below `n` are done and the others are as before.
  abbrev Acked : ℕ → List ℕ → Type 0
  Acked n xs =
      (length xs ≡ 4)
      × ((j : ℕ) → get_or xs j 0 ≡ (if ltb j n && bit val j then 0 else get_or active j 0))

  ack_round :
      (level : ℕ) (xs : List ℕ)
      → level < 4
      → Acked level xs
      → Acked (suc level) (if bit val level then set xs level 0 else xs)
  ack_round level xs h (size, so_far) = (
    ground (arith, length-set xs level 0),
    λ j. ground (arith, so_far j, so_far level, get_or-set xs level j 0 0),
  )

  -- LEVELACK takes the levels of its mask, of the four levels, out of service and no others.
  pub get_or-ack_levels :
      (l : ℕ)
      → length active ≡ 4
      → l < 4
      → get_or (ack_levels val active) l 0 ≡ (if bit val l then 0 else get_or active l 0)
  unfolding ack_levels
  get_or-ack_levels l size h = ground (arith, all_rounds.1 l)
    where
      all_rounds : Acked 4 (ack_levels val active)
      all_rounds =
          for_below_inv Acked 4
            (λ level levels. if bit val level then set levels level 0 else levels) active
            (size, λ j. ground arith) ack_round
