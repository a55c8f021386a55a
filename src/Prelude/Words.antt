-- ===== src/Prelude/Words.antt =====
-- `usize` and `u64`: a number below 2 ^ 64, with the wrap-around of a release build written out.
use Prim.Native.Nat.{ℕ, suc, ◌+◌, ◌-◌, ◌/◌, ◌%◌, ◌^◌, ◌<◌}
use mathlib.Core.Path.{◌≡◌}
use native.Mathlib.Omega.{arith}

abbrev pub word_size : ℕ
word_size = 2 ^ 64

-- `isize::MAX`, above which no allocation is made.
abbrev pub isize_max : ℕ
isize_max = 2 ^ 63 - 1

abbrev pub add_usize : ℕ → ℕ → ℕ
add_usize a b = (a + b) % 2 ^ 64

pub add_usize_small : (a b : ℕ) → a + b < word_size → add_usize a b ≡ a + b
add_usize_small a b h = omega arith

-- A step that stays inside its page.
pub in_page :
    (ps offset k : ℕ)
    → offset % ps + k < ps
    → ((offset + k) / ps ≡ offset / ps) × ((offset + k) % ps ≡ offset % ps + k)
in_page ps offset k h = (grind arith, grind arith)

-- A step to the end of a page.
pub next_page :
    (ps offset : ℕ)
    → 0 < ps
    → ((offset + (ps - offset % ps)) / ps ≡ suc (offset / ps))
      × ((offset + (ps - offset % ps)) % ps ≡ 0)
next_page ps offset h = (grind arith, grind arith)
