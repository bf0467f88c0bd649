-- ===== src/Prelude/Arrays.antt =====
-- C arrays of bytes, and pointers into them, as functions from the index, with the functions of
-- string.h on them.
use Prim.Native.Nat.{ℕ, ◌+◌, ◌-◌, ◌≤◌, ◌<◌}
use mathlib.Core.Path.{◌≡◌}
use mathlib.Core.Logic.{◌⊎◌}
use mathlib.Core.Bool.{◌&&◌}
use native.Mathlib.Omega.{arith}
use emu_gii.Prelude.Tests.{ltb, leb, ◌==◌, if◌then◌else◌}

-- `memcpy(buf + at, source, n)` and `memset(buf + at, c, n)`
abbrev pub memcpy : (ℕ → ℕ) → ℕ → (ℕ → ℕ) → ℕ → ℕ → ℕ
memcpy buf at source n i = if leb at i && ltb i (at + n) then source (i - at) else buf i

abbrev pub memset : (ℕ → ℕ) → ℕ → ℕ → ℕ → ℕ → ℕ
memset buf at c n i = if leb at i && ltb i (at + n) then c else buf i

abbrev pub put_byte : (ℕ → ℕ) → ℕ → ℕ → ℕ → ℕ
put_byte buf at v i = if i == at then v else buf i

-- `source + n`
abbrev pub shift_by : ℕ → (ℕ → ℕ) → ℕ → ℕ
shift_by n source i = source (n + i)

pub memcpy-inside :
    (buf : ℕ → ℕ) (at : ℕ) (source : ℕ → ℕ) (n i : ℕ)
    → at ≤ i
    → i < at + n
    → memcpy buf at source n i ≡ source (i - at)
memcpy-inside buf at source n i low high = ground arith

pub memcpy-below :
    (buf : ℕ → ℕ) (at : ℕ) (source : ℕ → ℕ) (n i : ℕ) → i < at → memcpy buf at source n i ≡ buf i
memcpy-below buf at source n i low = ground arith

pub memcpy-above :
    (buf : ℕ → ℕ) (at : ℕ) (source : ℕ → ℕ) (n i : ℕ)
    → at + n ≤ i
    → memcpy buf at source n i ≡ buf i
memcpy-above buf at source n i high = ground arith

pub memset-inside : (buf : ℕ → ℕ) (at c n i : ℕ) → at ≤ i → i < at + n → memset buf at c n i ≡ c
memset-inside buf at c n i low high = ground arith

pub memset-outside :
    (buf : ℕ → ℕ) (at c n i : ℕ) → (i < at) ⊎ (at + n ≤ i) → memset buf at c n i ≡ buf i
memset-outside buf at c n i apart = ground arith
