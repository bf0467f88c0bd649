-- ===== src/Tests/Engine.antt =====
-- The DMA engine at a concrete state: a ring of one descriptor that takes the semaphore.
use emu_gii.Prelude.{
  ℕ, ◌+◌, ◌≡◌, refl, sym, subst, ◌∙◌, ap, Bool, false, List, [], ◌∷◌, Option, none, some, get_or,
  replicate, set, set-AllAt, get_or-replicate, arith, AllAt,
}
use emu_gii.Bits.{bit, bit_of_zero}
use emu_gii.Dma.Host.{Host, ℤ}
use emu_gii.Dma.State.{Dma, channel_zero, irq_level, phore_of}
use emu_gii.Dma.Command.{Machine, cmd_semaphore}
use emu_gii.Dma.Bus.{write}
use emu_gii.Dma.Invariant.{IsValid, ChannelFits}
use emu_gii.Dma.Loads.{TakesSemaphores}
use emu_gii.Dma.Steps.{Keeps}
use emu_gii.Dma.Total.{write-Completes}
use emu_gii.Dma.Writes.{write-Keeps}

-- Memory that holds at every address a descriptor that points to itself and takes the semaphore,
-- raises the completion interrupt and moves nothing.
abbrev ring : Host Unit
ring = record {
  read_words = λ w addr n. some (addr ∷ 0x4c ∷ 0 ∷ 0 ∷ []);
  read_bytes = λ w addr n. none;
  write_bytes = λ w addr bytes. none;
  has_handler = λ i. false;
  sense_capable = λ i. false;
  has_completion = λ i. false;
  pio = λ w i words. w;
  data_read = λ w i n. record { world = w; handled = ℤ.pos 0; buffer = [] };
  data_write = λ w i bytes. record { world = w; result = ℤ.pos 0 };
  sense = λ w i. record { world = w; result = false };
  completion = λ w i. record { world = w; result = false };
}

ring-TakesSemaphores : TakesSemaphores ring
unfolding bit
ring-TakesSemaphores w addr words e = sym (ap takes_it e)
  where
    takes_it : Option (List ℕ) → Bool
    takes_it none = false
    takes_it (some ws) = cmd_semaphore (get_or ws 1 0)

-- Channel 0 has its first descriptor at 0x1000 and nothing is stopped.
abbrev armed : Dma
armed = record {
  irq = replicate 8 false;
  ctrl0 = 0;
  ctrl1 = 0;
  devsel = 0;
  ch = set (replicate 8 channel_zero) 0 (record channel_zero { nxtcmdar = 0x1000 });
  is_apbx = false;
}

zero-ChannelFits : ChannelFits channel_zero
unfolding phore_of
zero-ChannelFits = record { sema_fits = refl; latch_waits = λ on. cc }

first-ChannelFits : ChannelFits (record channel_zero { nxtcmdar = 0x1000 })
unfolding phore_of
first-ChannelFits = record { sema_fits = refl; latch_waits = λ on. cc }

zeros-AllAt : AllAt channel_zero ChannelFits (replicate 8 channel_zero)
zeros-AllAt i = subst ChannelFits (sym (get_or-replicate 8 i channel_zero)) zero-ChannelFits

armed-AllAt : AllAt channel_zero ChannelFits armed.ch
armed-AllAt =
    set-AllAt channel_zero ChannelFits (replicate 8 channel_zero) 0 _ first-ChannelFits zeros-AllAt

armed-IsValid : IsValid armed
unfolding irq_level
armed-IsValid = record {
  size = refl;
  fits = armed-AllAt;
  lines = (
    refl,
    λ i below.
        get_or-replicate 8 i false
        ∙ sym (ground (arith, bit_of_zero i, bit_of_zero (i + 8), bit_of_zero (i + 16))),
  );
  ctrl0_fits = (bit_of_zero 31 ∙ sym (bit_of_zero 30), λ k low high. bit_of_zero k, omega arith);
  ctrl1_fits = omega arith;
}

abbrev machine : Machine Unit
machine = record { dma = armed; world = tt }

-- Three increments of channel 0's semaphore, at 0x080.
write-Completes_example :
    (m' : Machine Unit) × (write ring 256 0x080 3 4 machine ≡ some m') × IsValid m'.dma
write-Completes_example = write-Completes ring ring-TakesSemaphores 0x080 3 4 machine armed-IsValid

write-Keeps_example : Keeps (write ring 8 0x080 3 4 machine)
write-Keeps_example = write-Keeps ring 8 0x080 3 4 machine armed-IsValid
