-- ===== src/Prelude/Slices.antt =====
-- What `slice` reads and `copy_at` leaves, by the parts of the buffer.
use Prim.Native.Nat.{ℕ, ◌+◌, ◌-◌, ◌≤◌}
use mathlib.Core.Path.{◌≡◌, refl, sym, ap, ◌∙◌}
use mathlib.Core.Option.{some}
use mathlib.Core.List.{List, [], ◌++◌, append-nil, append_assoc}
use native.Mathlib.Omega.{arith}
use fiddlers_db.Prelude.Tests.{le→leb, leb→le, leb, Bool-cases}
use fiddlers_db.Prelude.Lists.{take-drop-append, drop-append_beyond}
use mathlib.Core.Logic.{◌⊎◌, inl, inr}
use fiddlers_db.Prelude.Lists.{
  length, take, drop, length-append, take-append, drop-append, take_all,
}
use fiddlers_db.Prelude.Lists.{length-drop, length-take, drop-drop, take-append-drop}
use fiddlers_db.Prelude.Bytes.{slice, copy_at}

pub slice_lem :
    (a b c : List ℕ) (i j : ℕ)
    → length a ≡ i
    → i + length b ≡ j
    → slice (a ++ (b ++ c)) i j ≡ some b
unfolding slice
slice_lem a b c i j h k = rw (
  le→leb i j (omega arith),
  le→leb j (length (a ++ (b ++ c))) (omega (arith, length-append a (b ++ c), length-append b c)),
  drop-append a (b ++ c) i h,
  take-append b c (j - i) (omega arith),
)

pub slice_rest : (a : List ℕ) (i : ℕ) → i ≤ length a → slice a i (length a) ≡ some (drop i a)
unfolding slice
slice_rest a i h = rw (
  le→leb i (length a) h,
  le→leb (length a) (length a) (omega arith),
  take_all (length a - i) (drop i a) (omega (arith, length-drop i a)),
)

-- Overwriting the middle of a buffer.
pub copy_at_lem :
    (a b c d : List ℕ) (i : ℕ)
    → length a ≡ i
    → length b ≡ length d
    → copy_at (a ++ (b ++ c)) i d ≡ some (a ++ (d ++ c))
unfolding copy_at
copy_at_lem a b c d i h k = rw (
  le→leb (i + length d) (length (a ++ (b ++ c)))
      (omega (arith, length-append a (b ++ c), length-append b c)),
  take-append a (b ++ c) i h,
  tail,
)
  where
    tail : drop (i + length d) (a ++ (b ++ c)) ≡ c
    tail =
        ap (λ l. drop (i + length d) l) (sym (append_assoc a b c))
        ∙ drop-append (a ++ b) c (i + length d) (omega (arith, length-append a b))

pub length-slice : (a : List ℕ) (i j : ℕ) {b : List ℕ} → slice a i j ≡ some b → i + length b ≡ j
unfolding slice
length-slice a i j h = ground (arith, length-take (j - i) (drop i a), length-drop i a)

-- What is left of a buffer after its next part.
pub drop_step :
    (buf a b : List ℕ) (offset : ℕ) → drop offset buf ≡ a ++ b → drop (offset + length a) buf ≡ b
drop_step buf a b offset h =
    sym (drop-drop (length a) offset (offset + length a) buf refl)
    ∙ ap (drop (length a)) h
    ∙ drop-append a b (length a) refl

-- Reading the part that stands at `i`.
pub slice_at :
    (buf b c : List ℕ) (i j : ℕ)
    → drop i buf ≡ b ++ c
    → i ≤ length buf
    → i + length b ≡ j
    → slice buf i j ≡ some b
unfolding slice
slice_at buf b c i j h inside k = rw (
  le→leb i j (omega arith),
  le→leb j (length buf) (omega (arith, ap length h, length-append b c, length-drop i buf)),
  h,
  take-append b c (j - i) (omega arith),
)

-- A buffer cut at two places.
pub cut_at :
    (n : ℕ) (buf : List ℕ)
    → n ≤ length buf
    → (a : List ℕ) × (b : List ℕ) × (buf ≡ a ++ b) × (length a ≡ n)
cut_at n buf h =
    (take n buf, drop n buf, sym (take-append-drop n buf), omega (arith, length-take n buf))

-- `buf[start..end].copy_from_slice(bytes)`, of bytes that fill the range.
pub copy_at_end :
    (a b d : List ℕ) (i : ℕ)
    → length a ≡ i
    → length b ≡ length d
    → copy_at (a ++ b) i d ≡ some (a ++ d)
copy_at_end a b d i h k = simp append-nil at (copy_at_lem a b [] d i h k)

-- What a copy that succeeds has done.
pub copy_at-eq-some :
    (buf : List ℕ) (start : ℕ) (bytes : List ℕ) {out : List ℕ}
    → copy_at buf start bytes ≡ some out
    → (start + length bytes ≤ length buf)
      × (out ≡ take start buf ++ (bytes ++ drop (start + length bytes) buf))
unfolding copy_at
copy_at-eq-some buf start bytes h = ground arith

pub copy_at_total :
    (buf : List ℕ) (start : ℕ) (bytes : List ℕ)
    → start + length bytes ≤ length buf
    → copy_at buf start bytes ≡ some (take start buf ++ (bytes ++ drop (start + length bytes) buf))
unfolding copy_at
copy_at_total buf start bytes h = rw (le→leb (start + length bytes) (length buf) h)

-- The buffer after a copy.
abbrev pub copied : List ℕ → ℕ → List ℕ → List ℕ
copied buf start bytes = take start buf ++ (bytes ++ drop (start + length bytes) buf)

module _ (buf : List ℕ) (start : ℕ) (bytes : List ℕ)
    (fits : start + length bytes ≤ length buf) where
  pub length-copied : length (copied buf start bytes) ≡ length buf
  length-copied = omega (
    arith,
    length-append (take start buf) (bytes ++ drop (start + length bytes) buf),
    length-append bytes (drop (start + length bytes) buf),
    length-take start buf,
    length-drop (start + length bytes) buf,
  )

  pub slice-copied_self : slice (copied buf start bytes) start (start + length bytes) ≡ some bytes
  slice-copied_self =
      slice_lem (take start buf) bytes (drop (start + length bytes) buf) start
        (start + length bytes) (omega (arith, length-take start buf)) refl

  pub slice-copied_before :
      (i j : ℕ) → j ≤ start → slice (copied buf start bytes) i j ≡ slice buf i j
  unfolding slice
  slice-copied_before i j h = elim (Bool-cases (leb i j)) [
    | inr bad ↦ rw bad
    | inl good ↦
        let inside : i + (j - i) ≤ length (take start buf) =
          omega (arith, leb→le i j good, length-take start buf) in
        let left =
          take-drop-append (j - i) i (take start buf) (bytes ++ drop (start + length bytes) buf)
            inside in
        let right =
          ap (λ l. take (j - i) (drop i l)) (sym (take-append-drop start buf))
          ∙ take-drop-append (j - i) i (take start buf) (drop start buf) inside in
        rw (
          good,
          le→leb j (length (copied buf start bytes)) (omega (arith, length-copied)),
          le→leb j (length buf) (omega arith),
          left,
          right,
        )
  ]

  slice-copied_after :
      (i j : ℕ) → start + length bytes ≤ i → slice (copied buf start bytes) i j ≡ slice buf i j
  unfolding slice
  slice-copied_after i j h =
      let left : drop i (copied buf start bytes)
          ≡ drop (i - (start + length bytes)) (drop (start + length bytes) buf) =
        ap (drop i) (sym (append_assoc (take start buf) bytes (drop (start + length bytes) buf)))
        ∙ drop-append_beyond i (take start buf ++ bytes) (drop (start + length bytes) buf)
            (omega (arith, length-append (take start buf) bytes, length-take start buf))
        ∙ ap (λ k. drop k (drop (start + length bytes) buf))
            (omega (arith, length-append (take start buf) bytes, length-take start buf)) in
      let right : drop (i - (start + length bytes)) (drop (start + length bytes) buf) ≡ drop i buf =
        drop-drop (i - (start + length bytes)) (start + length bytes) i buf (omega arith) in
      rw (length-copied, left ∙ right)

  -- A copy leaves the ranges beside it as they were.
  pub slice-copied_apart :
      (i j : ℕ)
      → (j ≤ start) ⊎ (start + length bytes ≤ i)
      → slice (copied buf start bytes) i j ≡ slice buf i j
  slice-copied_apart i j (inl h) = slice-copied_before i j h
  slice-copied_apart i j (inr h) = slice-copied_after i j h

-- The same copies, where the buffer is cut at more places.
pub copy_at_lem2 :
    (a1 a2 b c d : List ℕ) (i : ℕ)
    → length a1 + length a2 ≡ i
    → length b ≡ length d
    → copy_at (a1 ++ (a2 ++ (b ++ c))) i d ≡ some (a1 ++ (a2 ++ (d ++ c)))
copy_at_lem2 a1 a2 b c d i h k =
    simp append_assoc at (copy_at_lem (a1 ++ a2) b c d i (length-append a1 a2 ∙ h) k)

pub copy_at_lem3 :
    (a1 a2 a3 b c d : List ℕ) (i : ℕ)
    → length a1 + (length a2 + length a3) ≡ i
    → length b ≡ length d
    → copy_at (a1 ++ (a2 ++ (a3 ++ (b ++ c)))) i d ≡ some (a1 ++ (a2 ++ (a3 ++ (d ++ c))))
copy_at_lem3 a1 a2 a3 b c d i h k =
    simp append_assoc at (copy_at_lem2 a1 (a2 ++ a3) b c d i (omega (arith, length-append a2 a3)) k)

-- Two buffers of one length that agree from `i` on.
pub slice_eq :
    (a b : List ℕ) (i j : ℕ) → length a ≡ length b → drop i a ≡ drop i b → slice a i j ≡ slice b i j
unfolding slice
slice_eq a b i j h k = rw (h, k)
