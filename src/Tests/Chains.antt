-- ===== src/Tests/Chains.antt =====
-- Chains at concrete states: a deferred completion, and a descriptor that points to itself.
use emu_gii.Prelude.{◌≡◌, ◌≢◌, refl, true, false, none, some, [], ◌∷◌, replicate, set, arith}
use emu_gii.Bits.{bit}
use emu_gii.Reg.{has}
use emu_gii.Dma.Host.{Host, ℤ}
use emu_gii.Dma.State.{
  Channel, channel, channel_zero, channel_active, channel_active_for_ctrl, phore_of,
}
use emu_gii.Dma.Command.{Machine, cmd_command, cmd_words}
use emu_gii.Dma.Run.{complete_channel_command, kick_channel, and_then}
use emu_gii.Dma.Deferred.{with_ctrl0, deferred_completion}
use emu_gii.Dma.Endless.{IsIdleLink, kick_channel-Diverges}

-- Every address holds a descriptor that points to itself and only chains.
abbrev self_loop : Host Unit
self_loop = record {
  read_words = λ w addr n. some (addr ∷ 4 ∷ 0 ∷ 0 ∷ []);
  read_bytes = λ w addr n. none;
  write_bytes = λ w addr bytes. none;
  has_handler = λ i. false;
  sense_capable = λ i. false;
  has_completion = λ i. false;
  pio = λ w i words. w;
  data_read = λ w i n. record { world = w; handled = ℤ.pos 0; buffer = [] };
  data_write = λ w i bytes. record { world = w; result = ℤ.pos 0 };
  sense = λ w i. record { world = w; result = false };
  completion = λ w i. record { world = w; result = false };
}

abbrev with_channel : Channel → Machine Unit
with_channel c = record {
  dma = record {
    irq = replicate 8 false;
    ctrl0 = 0;
    ctrl1 = 0;
    devsel = 0;
    ch = set (replicate 8 channel_zero) 2 c;
    is_apbx = false;
  };
  world = tt;
}

abbrev counted : Machine Unit
counted = with_channel (record channel_zero { nxtcmdar = 0x1000; sema = 0x1_0000 })

-- Channel 2 waits for the end of a command that raises its interrupt.
abbrev waits : Machine Unit
waits = with_channel (record channel_zero { loaded_cmd = 0x88; wait4endcmd_pending = true })

runs : (c : Channel) → channel_active (with_channel c).dma 2 ≡ true
unfolding channel_active channel_active_for_ctrl has bit
runs c = refl

-- CTRL0 freezes channel 2.
frozen : channel_active (with_ctrl0 4 waits).dma 2 ≡ false
unfolding channel_active channel_active_for_ctrl has bit
frozen = refl

deferred_completion_example :
    and_then
      (complete_channel_command self_loop 8 2 (with_ctrl0 4 waits))
      (λ t. kick_channel self_loop 8 2 (with_ctrl0 0 t))
    ≡ complete_channel_command self_loop 8 2 waits
deferred_completion_example =
    deferred_completion self_loop 8 2 (omega arith) 4 waits refl refl (runs _) frozen

only_chains : IsIdleLink 4
unfolding bit cmd_command cmd_words
only_chains = record {
  no_transfer = refl;
  chains = refl;
  no_semaphore = refl;
  no_wait = refl;
  no_pio = refl;
}

one_counted : phore_of (channel counted.dma 2) ≢ 0
unfolding phore_of
one_counted = λ e. omega arith

kick_channel-Diverges_example : kick_channel self_loop 1000 2 counted ≡ none
kick_channel-Diverges_example =
    kick_channel-Diverges self_loop 2 0x1000 4 0 0 tt only_chains refl (λ e. omega arith)
      (omega arith) 1000 counted refl refl refl (runs _) refl one_counted
