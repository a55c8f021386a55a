-- ===== src/Paths/Utf8.antt =====
-- `OsStr::to_str` and `Path::to_str`: whether the bytes are UTF-8, byte by byte. The state is the
-- number of continuation bytes that are due, and the range of the next one.
use remote_file_system.Prelude.{
  ℕ, zero, suc, Bool, true, false, ◌&&◌, Option, none, some, [], ◌∷◌, ltb, leb, ◌==◌, if◌then◌else◌,
}
use remote_file_system.Paths.Components.{Text, FilePath, normal}

utf8_start : ℕ → Option (ℕ × ℕ × ℕ)
utf8_start b =
    if ltb b 0x80
    then some (0, 0x80, 0xbf)
    else if ltb b 0xc2
    then none
    else if ltb b 0xe0
    then some (1, 0x80, 0xbf)
    else if b == 0xe0
    then some (2, 0xa0, 0xbf)
    else if b == 0xed
    then some (2, 0x80, 0x9f)
    else if ltb b 0xf0
    then some (2, 0x80, 0xbf)
    else if b == 0xf0
    then some (3, 0x90, 0xbf)
    else if ltb b 0xf4
    then some (3, 0x80, 0xbf)
    else if b == 0xf4
    then some (3, 0x80, 0x8f)
    else none

utf8_from : ℕ → ℕ → ℕ → Text → Bool
utf8_from zero lo hi [] = true
utf8_from (suc due) lo hi [] = false
utf8_from zero lo hi (b ∷ bytes) = elim (utf8_start b) [
  | none ↦ false
  | some (due, lo', hi') ↦ utf8_from due lo' hi' bytes
]
utf8_from (suc due) lo hi (b ∷ bytes) = elim (leb lo b && leb b hi) [
  | true ↦ utf8_from due 0x80 0xbf bytes
  | false ↦ false
]

unfoldable pub is_utf8 : Text → Bool
unfolding utf8_start utf8_from
is_utf8 t = utf8_from 0 0x80 0xbf t

unfoldable pub path_is_utf8 : FilePath → Bool
unfolding is_utf8
path_is_utf8 [] = true
path_is_utf8 (normal t ∷ p) = is_utf8 t && path_is_utf8 p
path_is_utf8 (c ∷ p) = path_is_utf8 p
