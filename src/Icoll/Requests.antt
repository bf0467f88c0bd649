-- ===== src/Icoll/Requests.antt =====
-- Which sources request service, and when the FIQ and the busy line are due
-- (hw/intc/stmp3770_icoll.c).
use emu_gii.Prelude.{
  ℕ, suc, ◌+◌, ◌-◌, ◌^◌, ◌≤◌, ◌<◌, ◌≡◌, ◌↔◌, bit_or, Bool, true, ◌&&◌, ◌||◌, ltb, sym, ◌∙◌, arith,
  if◌then◌else◌, for_below_inv, any_below, any_below_found, any_below_witness,
}
use emu_gii.Bits.{bit, bit-bit_or, bit-pow}
use emu_gii.Icoll.State.{Icoll, soft_irq, enabled, source_routes_to_fiq}
use emu_gii.Icoll.Arbiter.{live_requests, fiq_pending, busy_from}

module _ (s : Icoll) where
  -- The request mask after the sources below `n` were looked at.
  abbrev Requests : ℕ → ℕ → Type 0
  Requests n mask = (i : ℕ) → bit mask i ≡ (bit s.raw_status i || (ltb i n && soft_irq s i))

  add_source :
      (n mask : ℕ)
      → Requests n mask
      → Requests (suc n) (if soft_irq s n then bit_or mask (2 ^ n) else mask)
  add_source n mask so_far i = ground (arith, so_far i, bit-bit_or mask (2 ^ n) i, bit-pow n i)

  -- A source below 64 is in the live requests exactly when its input is raised or its software
  -- interrupt bit is set.
  pub bit-live_requests :
      (i : ℕ) → i < 64 → bit (live_requests s) i ≡ (bit s.raw_status i || soft_irq s i)
  unfolding live_requests
  bit-live_requests i h = ground (arith, all_sources i)
    where
      all_sources : Requests 64 (live_requests s)
      all_sources =
          for_below_inv Requests 64
            (λ source requests.
              if soft_irq s source then bit_or requests (2 ^ source) else requests)
            s.raw_status (λ i. ground arith) (λ n mask below so_far. add_source n mask so_far)

  -- What raises the FIQ: one of the sources 28 to 35 that is routed to it and requests service.
  pub record FiqSource (source : ℕ) : Type 0 where
    pub from : 28 ≤ source
    pub to : source ≤ 35
    pub routed : bit s.fiq_enable (source - 28) ≡ true
    pub requests : (bit s.raw_status source || soft_irq s source) ≡ true

  -- The FIQ is due exactly when one of the sources 28 to 35 is routed to it and requests service.
  pub fiq_pending_iff : (fiq_pending s ≡ true) ↔ ((source : ℕ) × FiqSource source)
  unfolding fiq_pending source_routes_to_fiq
  fiq_pending_iff = (found, due)
    where
      test : ℕ → Bool
      test k = source_routes_to_fiq s (28 + k) && bit (live_requests s) (28 + k)

      found : any_below 8 test ≡ true → (source : ℕ) × FiqSource source
      found e =
          let (k, below, passes) = any_below_witness 8 test e in
          let live : bit (live_requests s) (28 + k) ≡ true = ground arith in
          (
            28 + k,
            record {
              from = omega arith;
              to = omega arith;
              routed = ground arith;
              requests = sym (bit-live_requests (28 + k) (omega arith)) ∙ live;
            },
          )

      due : ((source : ℕ) × FiqSource source) → any_below 8 test ≡ true
      due (source, f) =
          let same : 28 + (source - 28) ≡ source = omega (arith, f.from) in
          any_below_found 8 test (source - 28) (omega (arith, f.from, f.to))
            (rw same (ground (arith, bit-live_requests source, f.from, f.to, f.routed, f.requests)))

  -- A source keeps the collector busy if it requests service and may interrupt by either line.
  record BusySource (source : ℕ) : Type 0 where
    pub below : source < 64
    pub requests : (bit s.raw_status source || soft_irq s source) ≡ true
    pub delivered : (source_routes_to_fiq s source || enabled s source) ≡ true

  -- The busy line to the clock control is due exactly when a source below 64 requests service and
  -- is enabled or routed to the FIQ.
  busy_from_iff : (busy_from s (live_requests s) ≡ true) ↔ ((source : ℕ) × BusySource source)
  unfolding busy_from
  busy_from_iff = (found, due)
    where
      test : ℕ → Bool
      test i = bit (live_requests s) i && (source_routes_to_fiq s i || enabled s i)

      found : any_below 64 test ≡ true → (source : ℕ) × BusySource source
      found e =
          let (i, below, passes) = any_below_witness 64 test e in
          (
            i,
            record {
              below = below;
              requests = ground (arith, bit-live_requests i below);
              delivered = ground arith;
            },
          )

      due : ((source : ℕ) × BusySource source) → any_below 64 test ≡ true
      due (source, b) =
          any_below_found 64 test source b.below
            (ground (arith, bit-live_requests source b.below, b.requests, b.delivered))
