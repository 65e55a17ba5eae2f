-- ===== src/Prelude/Bytes.antt =====
-- Big-endian numbers, and copies into and out of byte buffers. A byte is a number below 256.
use Prim.Native.Nat.{ℕ, ◌+◌, ◌-◌, ◌*◌, ◌/◌, ◌%◌, ◌^◌, ◌<◌}
use mathlib.Core.Path.{◌≡◌, refl, ap, ◌∙◌}
use mathlib.Core.Bool.{◌&&◌}
use mathlib.Core.Option.{Option, none, some}
use mathlib.Core.List.{List, [], ◌∷◌, ◌++◌}
use native.Mathlib.Omega.{arith}
use fiddlers_db.Prelude.Tests.{leb, if◌then◌else◌}
use fiddlers_db.Prelude.Lists.{length, take, drop}
use fiddlers_db.Prelude.Int.{ℤ, pos, IsI32, word32, as_i32, as_i32-word32, word32-lt}

abbrev pub IsByte : ℕ → Type 0
IsByte b = b < 256

-- `u16::to_be_bytes` and back. A slice of another length is not accepted.
unfoldable pub u16_to_be : ℕ → List ℕ
u16_to_be n = (n / 256 % 256) ∷ (n % 256) ∷ []

unfoldable pub u16_from_be : List ℕ → Option ℕ
u16_from_be (a ∷ b ∷ []) = some (a * 256 + b)
u16_from_be _ = none

unfoldable pub u32_to_be : ℕ → List ℕ
u32_to_be n = (n / 2 ^ 24 % 256) ∷ (n / 2 ^ 16 % 256) ∷ (n / 2 ^ 8 % 256) ∷ (n % 256) ∷ []

unfoldable pub u32_from_be : List ℕ → Option ℕ
u32_from_be (a ∷ b ∷ c ∷ d ∷ []) = some (a * 2 ^ 24 + b * 2 ^ 16 + c * 2 ^ 8 + d)
u32_from_be _ = none

unfoldable pub i32_to_be : ℤ → List ℕ
unfolding u32_to_be
i32_to_be z = u32_to_be (word32 z)

abbrev pub as_i32? : Option ℕ → Option ℤ
as_i32? none = none
as_i32? (some n) = some (as_i32 n)

unfoldable pub i32_from_be : List ℕ → Option ℤ
unfolding u32_from_be
i32_from_be bs = as_i32? (u32_from_be bs)

pub u16_from_be-u16_to_be : (n : ℕ) → n < 2 ^ 16 → u16_from_be (u16_to_be n) ≡ some n
unfolding u16_from_be u16_to_be
u16_from_be-u16_to_be n h = ap some (omega arith)

pub u32_from_be-u32_to_be : (n : ℕ) → n < 2 ^ 32 → u32_from_be (u32_to_be n) ≡ some n
unfolding u32_from_be u32_to_be
u32_from_be-u32_to_be n h = ap some (omega arith)

pub i32_from_be-i32_to_be : (z : ℤ) → IsI32 z → i32_from_be (i32_to_be z) ≡ some z
unfolding i32_from_be i32_to_be
i32_from_be-i32_to_be z h =
    ap as_i32? (u32_from_be-u32_to_be (word32 z) (word32-lt z)) ∙ ap some (as_i32-word32 z h)

pub as_i32-eq : (n : ℕ) → n < 2 ^ 31 → as_i32 n ≡ pos n
as_i32-eq n h = ground arith

pub i32_from_be-u32_to_be : (n : ℕ) → n < 2 ^ 31 → i32_from_be (u32_to_be n) ≡ some (pos n)
unfolding i32_from_be
i32_from_be-u32_to_be n h =
    ap as_i32? (u32_from_be-u32_to_be n (omega arith)) ∙ ap some (as_i32-eq n h)

pub length-u16_to_be : (n : ℕ) → length (u16_to_be n) ≡ 2
unfolding u16_to_be
length-u16_to_be n = refl

pub length-u32_to_be : (n : ℕ) → length (u32_to_be n) ≡ 4
unfolding u32_to_be
length-u32_to_be n = refl

pub length-i32_to_be : (z : ℤ) → length (i32_to_be z) ≡ 4
unfolding i32_to_be
length-i32_to_be z = refl

-- `&buf[start..end]`; `none` where Rust panics.
unfoldable pub slice : List ℕ → ℕ → ℕ → Option (List ℕ)
slice buf start end =
    if leb start end && leb end (length buf)
    then some (take (end - start) (drop start buf))
    else none

-- `buf[start..start + bytes.len()].copy_from_slice(bytes)`; `none` where Rust panics.
unfoldable pub copy_at : List ℕ → ℕ → List ℕ → Option (List ℕ)
copy_at buf start bytes =
    if leb (start + length bytes) (length buf)
    then some (take start buf ++ (bytes ++ drop (start + length bytes) buf))
    else none
