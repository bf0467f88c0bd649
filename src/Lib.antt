-- ===== src/Lib.antt =====
-- EmuGII emulates the STMP3770 of a pocket calculator on QEMU: one C file for each device of the
-- chip, wired together by hw/arm/stmp3770.c (under src/ of the repository, as all paths here). A
-- device has its registers as a struct, a read and a write handler for its memory-mapped
-- registers, a reset, and callbacks for its inputs and timers. This development models
-- whole devices: the interrupt collector, which all others raise their interrupts at, the DMA
-- engines, which move data between memory and the peripherals, the power supply control, the
-- real-time clock, the one-time programmable memory, the timers with the rotary decoder, and the
-- digital radio interface. Of two more it models a part: the hash engine and the cipher of the data
-- co-processor, and the NAND flash chip of the GPMI.
--
--  Prelude   shared names, tests, lists and the counted loops with their invariant rules
--  Bits      the bitwise operations of C at variables
--  Reg       aliases (SET, CLR, TOG) and accesses narrower than a word, as every device has them
--  Icoll     hw/intc/stmp3770_icoll.c: State (the struct), Arbiter (the searches over the sources),
--            Update (stmp3770_icoll_update), Control (reset, timers, inputs, CTRL), Bus (the read
--            and write handlers), Machine (all of it as steps from the reset); the other modules
--            prove what they are named for
--  Dma       hw/dma/stmp3770_dma.c: State (the structs, the lines, the reset), Host (memory and the
--            peripherals), Command (stmp3770_dma_load_command), Transfer and Run
--            (stmp3770_dma_run_channel and its callers), Bus (the read and write handlers); Steps,
--            Resets, Writes, Fuel and Total prove that writes keep the invariant and return; Deferred and
--            Endless are about completions of stopped channels and chains without end
--  Power     hw/misc/stmp3770_power.c: Regs (the registers and their handlers), Access (what they do)
--  Ocotp     hw/misc/stmp3770_ocotp.c: Fuses (the struct and the programming), Bus (the handlers and
--            the reset), Steps (the elementary changes and what they keep); Blown and Aliases prove
--            what they are named for
--  Rtc       hw/rtc/stmp3770_rtc.c: State (the struct and the alarm), Copy (the copies between the
--            shadow and the always-on registers), Tick, Bus (the handlers and the reset); Lock and
--            Forever, Clock, Marks and Words prove what they are named for
--  Dcp       hw/misc/stmp3770_dcp.c: Host (loads in QEMU's byte order), Sha1 (dcp_sha1_block), Hash
--            (the stream and CRC-32), Words (words, blocks and swaps), Cipher (dcp_cipher_block);
--            Blocks, Stream, Padding and Digest compare the stream with the padded message, and
--            Inverse, Involution and Decipher deciphering with enciphering
--  Gpmi      hw/block/stmp3770_gpmi.c: Nand (the storage, by pages and blocks), Chip (commands,
--            addresses and data bytes), Fifo (the data FIFO); Pages, Flash and Erase prove where
--            pages are and what programming and erasing change, Protocol, Fill, Geometry and
--            RoundTrip follow the commands, and Queue compares the FIFO with a queue
--  Timrot    hw/timer/stmp3770_timer.c: State (the structs and the lines), Rotary (the filter and the
--            transitions of the decoder), Count (counters, edges, samples, duty cycles), Bus (the
--            handlers and the reset), Machine (all of it as steps from the reset); Invariant,
--            Keeps and Written are its lemmas, Debounce, Turns, Phases and Measure follow the filter,
--            the knob and timer 3
--  Dri       hw/misc/stmp3770_dri.c: Regs (the registers, their handlers and the DMA handler), Status
--            (the status bits)
--  Tests     the theorems at concrete states
--
-- A C function has the definition of its name without the prefix; a long one is cut into
-- definitions for its branches. A `qemu_irq` output is the level last set, a `QEMUTimer` its
-- deadline if it is armed, and `-1` for no level is `none`. Numbers are natural numbers with `u32`
-- where the C type cuts them; the virtual clock has no bound.
--
-- The functions of the DMA engine that run a chain call one another without bound, and so take
-- fuel: one unit for each command that is run. 256 units are enough if each command takes the
-- semaphore, which counts to 255. `Host` stands for what those functions call and do not
-- implement; of the peripherals' callbacks only the completion callback may call back, and only
-- to complete its own channel as the last thing that it does.
--
-- The AES of QEMU and its byte order functions are parameters of Dcp, and so is the block backend of
-- Gpmi, whose writes may fail, and the ptimer of QEMU of Timrot, which with its policy does not call
-- back while a handler changes it. The theorems about the flash take a storage with room for all its
-- pages, as gpmi_realize allocates it; the length of a hashed message is kept in 32 bits, as the code
-- does.
--
-- Not modelled: logging and profiling, QEMU's object set-up and migration, the transfer buffers
-- that the DMA reuses, the packets, arbitration, keys and colour conversion of the data
-- co-processor, the other registers, waits and error correction of the GPMI, and the other devices.
pub mod Prelude
pub mod Bits
pub mod Reg
pub mod Icoll
pub mod Dma
pub mod Power
pub mod Rtc
pub mod Ocotp
mod Tests
pub mod Dcp
pub mod Gpmi
pub mod Timrot
pub mod Dri
