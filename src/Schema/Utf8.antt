-- ===== src/Schema/Utf8.antt =====
-- The check of `String::from_utf8`: well-formed UTF-8, by the table of the Unicode standard.
use fiddlers_db.Prelude.{ℕ, zero, suc, Bool, true, false, List, [], ◌∷◌, ◌&&◌, ltb, leb, ◌==◌}
use fiddlers_db.Prelude.{if◌then◌else◌, Option, some, none, ◌≡◌, arith}

-- `more n lo hi`: a byte of `lo..=hi` is due, and then `n` continuation bytes.
pub data Utf8State : Type 0 where
  start : Utf8State
  more : ℕ → ℕ → ℕ → Utf8State
  bad : Utf8State

utf8_step : Utf8State → ℕ → Utf8State
utf8_step start b =
    if ltb b 0x80
    then start
    else if ltb b 0xc2
    then bad
    else if ltb b 0xe0
    then more 0 0x80 0xbf
    else if b == 0xe0
    then more 1 0xa0 0xbf
    else if b == 0xed
    then more 1 0x80 0x9f
    else if ltb b 0xf0
    then more 1 0x80 0xbf
    else if b == 0xf0
    then more 2 0x90 0xbf
    else if ltb b 0xf4
    then more 2 0x80 0xbf
    else if b == 0xf4
    then more 2 0x80 0x8f
    else bad
utf8_step (more zero lo hi) b = if leb lo b && leb b hi then start else bad
utf8_step (more (suc n) lo hi) b = if leb lo b && leb b hi then more n 0x80 0xbf else bad
utf8_step bad b = bad

utf8_run : Utf8State → List ℕ → Utf8State
utf8_run s [] = s
utf8_run s (b ∷ bs) = utf8_run (utf8_step s b) bs

unfoldable pub is_utf8 : List ℕ → Bool
unfolding utf8_run utf8_step
is_utf8 bs = elim (utf8_run start bs) [ start ↦ true | _ ↦ false ]

-- `String::from_utf8`: the bytes themselves, if they are well formed.
abbrev pub from_utf8 : List ℕ → Option (List ℕ)
from_utf8 bs = if is_utf8 bs then some bs else none

pub from_utf8-eq-some : (bs : List ℕ) {t : List ℕ} → from_utf8 bs ≡ some t → bs ≡ t
from_utf8-eq-some bs h = ground arith
