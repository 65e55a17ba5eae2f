-- ===== src/Tree/Codec/Words.antt =====
-- src/tree/store.rs: what the loops of the node's codec write into a buffer and read from it.
use fiddlers_db.Prelude.{
  ℕ, zero, suc, ◌+◌, ◌-◌, ◌*◌, ◌≤◌, ◌≡◌, refl, sym, ap, ◌∙◌, arith, false, some, none, List, [],
  ◌∷◌, ◌++◌, append_assoc, length, length-append, replicate, drop, length-drop, All, lt→ltb, le→ltb,
}
use fiddlers_db.Prelude.Int.{ℤ, pos, i32_min, IsI32, ◌==ℤ◌}
use fiddlers_db.Prelude.Bytes.{copy_at, i32_to_be, length-i32_to_be, i32_from_be-i32_to_be}
use fiddlers_db.Prelude.Slices.{copy_at_lem, slice_at, drop_step}
use fiddlers_db.Prelude.Outcome.{ok, or_panic, ◌>>=◌, >>=_ext}
use fiddlers_db.Tree.{read_i32_with_null}
use fiddlers_db.Tree.Codec.{
  prefill, write_i32s, write_values, read_node_i32, read_i32s, read_values,
}

-- Consecutive numbers.
abbrev pub words : List ℤ → List ℕ
words [] = []
words (z ∷ zs) = i32_to_be z ++ words zs

-- The numbers of a list of pairs.
abbrev pub flat : List (ℤ × ℤ) → List ℤ
flat [] = []
flat ((a, b) ∷ values) = a ∷ b ∷ flat values

-- `n` places, of which the last ones are unused.
abbrev pub padded : List ℤ → ℕ → List ℤ
padded zs zero = zs
padded [] (suc n) = i32_min ∷ padded [] n
padded (z ∷ zs) (suc n) = z ∷ padded zs n

pub length-words : (zs : List ℤ) → length (words zs) ≡ 4 * length zs
length-words [] = refl
length-words (z ∷ zs) =
    omega (arith, length-append (i32_to_be z) (words zs), length-i32_to_be z, length-words zs)

pub length-flat : (values : List (ℤ × ℤ)) → length (flat values) ≡ 2 * length values
length-flat [] = refl
length-flat ((a, b) ∷ values) = omega (arith, length-flat values)

pub words-append : (xs ys : List ℤ) → words (xs ++ ys) ≡ words xs ++ words ys
words-append [] ys = refl
words-append (x ∷ xs) ys =
    ap (λ l. i32_to_be x ++ l) (words-append xs ys)
    ∙ sym (append_assoc (i32_to_be x) (words xs) (words ys))

-- Consecutive numbers overwrite as many.
pub write_i32s-words {ℓ} :
    {E : Type ℓ} (a : List ℕ) (old new : List ℤ) (c : List ℕ) (offset : ℕ)
    → length old ≡ length new
    → length a ≡ offset
    → write_i32s {E = E} (a ++ (words old ++ c)) offset new ≡ ok (a ++ (words new ++ c))
unfolding write_i32s
write_i32s-words a [] [] c offset same at = refl
write_i32s-words a [] (z ∷ zs) c offset same at = absurd (omega arith)
write_i32s-words a (o ∷ old) [] c offset same at = absurd (omega arith)
write_i32s-words {E} a (o ∷ old) (z ∷ zs) c offset same at =
    let copy =
      copy_at_lem a (i32_to_be o) (words old ++ c) (i32_to_be z) offset at
        (length-i32_to_be o ∙ sym (length-i32_to_be z)) in
    let rest =
      write_i32s-words {E = E} (a ++ i32_to_be z) old zs c (offset + 4) (omega arith)
        (omega (arith, length-append a (i32_to_be z), length-i32_to_be z)) in
    rw (write_i32s, append_assoc (i32_to_be o) (words old) c, copy)
      (ap (λ l. write_i32s {E = E} l (offset + 4) zs)
          (sym (append_assoc a (i32_to_be z) (words old ++ c)))
        ∙ rest
        ∙ ap ok (
            append_assoc a (i32_to_be z) (words zs ++ c)
            ∙ ap (λ l. a ++ l) (sym (append_assoc (i32_to_be z) (words zs) c))))

-- The loop over values writes their numbers.
pub write_values-flat {ℓ} :
    {E : Type ℓ} (data_ : List ℕ) (offset : ℕ) (values : List (ℤ × ℤ))
    → write_values {E = E} data_ offset values ≡ write_i32s data_ offset (flat values)
unfolding write_values write_i32s
write_values-flat data_ offset [] = refl
write_values-flat {E} data_ offset ((a, b) ∷ values) =
    >>=_ext (or_panic {E = E} (copy_at data_ offset (i32_to_be a))) (λ data1.
      >>=_ext (or_panic {E = E} (copy_at data1 (offset + 4) (i32_to_be b))) (λ data2.
        write_values-flat {E = E} data2 (offset + 8) values
        ∙ ap (λ (o : ℕ). write_i32s {E = E} data2 o (flat values)) {x = offset + 8}
            {y = offset + 4 + 4} (omega arith)))

-- Empty bytes.
pub words-replicate_zero : (n : ℕ) → replicate (4 * n) 0 ≡ words (replicate n (pos 0))
unfolding i32_to_be
words-replicate_zero zero = refl
words-replicate_zero (suc n) =
    ap (λ (k : ℕ). replicate k 0) {x = 4 * suc n} {y = suc (suc (suc (suc (4 * n))))} (omega arith)
    ∙ ap (λ l. 0 ∷ 0 ∷ 0 ∷ 0 ∷ l) (words-replicate_zero n)

-- The places from an offset to the end become unused.
pub prefill-words {ℓ} :
    {E : Type ℓ} (rounds : ℕ) (a : List ℕ) (old : List ℤ) (offset : ℕ)
    → length old ≤ rounds
    → length a ≡ offset
    → prefill {E = E} rounds (a ++ words old) offset
      ≡ ok (a ++ words (replicate (length old) i32_min))
unfolding prefill
prefill-words zero a [] offset enough at = refl
prefill-words zero a (o ∷ old) offset enough at = absurd (omega arith)
prefill-words (suc rounds) a [] offset enough at =
    rw (prefill, le→ltb offset (length (a ++ [])) (omega (arith, length-append {A = ℕ} a [])))
prefill-words {E} (suc rounds) a (o ∷ old) offset enough at =
    let inside =
      lt→ltb offset (length (a ++ words (o ∷ old)))
        (omega (arith, length-append a (words (o ∷ old)), length-words (o ∷ old))) in
    let copy =
      copy_at_lem a (i32_to_be o) (words old) (i32_to_be i32_min) offset at
        (length-i32_to_be o ∙ sym (length-i32_to_be i32_min)) in
    let rest =
      prefill-words {E = E} rounds (a ++ i32_to_be i32_min) old (offset + 4) (omega arith)
        (omega (arith, length-append a (i32_to_be i32_min), length-i32_to_be i32_min)) in
    rw (prefill, inside, copy)
      (ap (λ l. prefill {E = E} rounds l (offset + 4))
          (sym (append_assoc a (i32_to_be i32_min) (words old)))
        ∙ rest
        ∙ ap ok (append_assoc a (i32_to_be i32_min) (words (replicate (length old) i32_min))))

-- A number that a place can hold: not the one that stands for an unused place.
abbrev pub IsStorable : ℤ → Type 0
IsStorable z = IsI32 z × ((z ==ℤ i32_min) ≡ false)

pub read_node_i32-at :
    (buf : List ℕ) (offset : ℕ) (z : ℤ) (c : List ℕ)
    → drop offset buf ≡ i32_to_be z ++ c
    → IsI32 z
    → read_node_i32 buf offset ≡ ok z
unfolding read_node_i32
read_node_i32-at buf offset z c h range =
    let inside : offset ≤ length buf = omega (
      arith,
      ap length h,
      length-drop offset buf,
      length-append (i32_to_be z) c,
      length-i32_to_be z,
    ) in
    rw (
      slice_at buf (i32_to_be z) c offset (offset + 4) h inside (omega (arith, length-i32_to_be z)),
      i32_from_be-i32_to_be z range,
    )

-- What follows a number.
pub after_word :
    (buf : List ℕ) (offset : ℕ) (z : ℤ) (c : List ℕ)
    → drop offset buf ≡ i32_to_be z ++ c
    → drop (offset + 4) buf ≡ c
unfolding i32_to_be
after_word buf offset z c h = drop_step buf (i32_to_be z) c offset h

pub read_i32_with_null_storable : (z : ℤ) → (z ==ℤ i32_min) ≡ false → read_i32_with_null z ≡ some z
unfolding read_i32_with_null
read_i32_with_null_storable z h = rw (read_i32_with_null, h)

pub read_i32_with_null_min : read_i32_with_null i32_min ≡ none
unfolding read_i32_with_null
read_i32_with_null_min = refl

-- Nothing is read from an unused place on.
pub read_i32s_null :
    (n : ℕ) (buf : List ℕ) (offset : ℕ) (c : List ℕ)
    → drop offset buf ≡ i32_to_be i32_min ++ c
    → read_i32s (suc n) buf offset ≡ ok []
unfolding read_i32s
read_i32s_null n buf offset c h = rw (
  read_i32s,
  read_node_i32-at buf offset i32_min c h (omega arith, omega arith),
  ◌>>=◌,
  read_i32_with_null_min,
)

pub read_i32s-padded :
    (n : ℕ) (buf : List ℕ) (offset : ℕ) (zs : List ℤ) (c : List ℕ)
    → length zs ≤ n
    → All IsStorable zs
    → drop offset buf ≡ words (padded zs n) ++ c
    → read_i32s n buf offset ≡ ok zs
unfolding read_i32s
read_i32s-padded zero buf offset [] c fits good h = refl
read_i32s-padded zero buf offset (z ∷ zs) c fits good h = absurd (omega arith)
read_i32s-padded (suc n) buf offset [] c fits good h =
    read_i32s_null n buf offset (words (padded [] n) ++ c)
      (h ∙ append_assoc (i32_to_be i32_min) (words (padded [] n)) c)
read_i32s-padded (suc n) buf offset (z ∷ zs) c fits (good, all) h =
    let rest = words (padded zs n) ++ c in
    let step : drop offset buf ≡ i32_to_be z ++ rest =
      h ∙ append_assoc (i32_to_be z) (words (padded zs n)) c in
    let next : drop (offset + 4) buf ≡ rest = after_word buf offset z rest step in
    rw (
      read_i32s,
      read_node_i32-at buf offset z rest step good.0,
      ◌>>=◌,
      read_i32_with_null_storable z good.1,
      read_i32s-padded n buf (offset + 4) zs c (omega arith) all next,
    )

-- Of a pair, the first number and what follows, and the second one.
pair_step :
    (buf : List ℕ) (offset : ℕ) (a b : ℤ) (zs : List ℤ) (c : List ℕ)
    → drop offset buf ≡ words (a ∷ b ∷ zs) ++ c
    → IsI32 a
    → IsI32 b
    → (read_node_i32 buf offset ≡ ok a)
      × (read_node_i32 buf (offset + 4) ≡ ok b)
      × (drop (offset + 8) buf ≡ words zs ++ c)
pair_step buf offset a b zs c h range_a range_b =
    let rest = words (b ∷ zs) ++ c in
    let first : drop offset buf ≡ i32_to_be a ++ rest =
      h ∙ append_assoc (i32_to_be a) (words (b ∷ zs)) c in
    let step : drop (offset + 4) buf ≡ i32_to_be b ++ (words zs ++ c) =
      after_word buf offset a rest first ∙ append_assoc (i32_to_be b) (words zs) c in
    (
      read_node_i32-at buf offset a rest first range_a,
      read_node_i32-at buf (offset + 4) b (words zs ++ c) step range_b,
      ap (λ (o : ℕ). drop o buf) {x = offset + 8} {y = offset + 4 + 4} (omega arith)
          ∙ after_word buf (offset + 4) b (words zs ++ c) step,
    )

pub read_values-padded :
    (n k : ℕ) (buf : List ℕ) (offset : ℕ) (values : List (ℤ × ℤ)) (c : List ℕ)
    → k ≡ 2 * n
    → length values ≤ n
    → All (λ v. IsStorable v.0 × IsStorable v.1) values
    → drop offset buf ≡ words (padded (flat values) k) ++ c
    → read_values n buf offset ≡ ok values
unfolding read_values
read_values-padded zero k buf offset [] c twice fits good h = refl
read_values-padded zero k buf offset (v ∷ values) c twice fits good h = absurd (omega arith)
read_values-padded (suc n) zero buf offset values c twice fits good h = absurd (omega arith)
read_values-padded (suc n) (suc zero) buf offset values c twice fits good h = absurd (omega arith)
read_values-padded (suc n) (suc (suc k)) buf offset [] c twice fits good h =
    let (first, second, rest) =
      pair_step buf offset i32_min i32_min (padded [] k) c h (omega arith, omega arith)
        (omega arith, omega arith) in
    rw (read_values, first, second)
read_values-padded (suc n) (suc (suc k)) buf offset ((a, b) ∷ values) c twice fits
      ((good_a, good_b), all) h =
    let (first, second, rest) =
      pair_step buf offset a b (padded (flat values) k) c h good_a.0 good_b.0 in
    rw (
      read_values,
      first,
      second,
      good_a.1,
      good_b.1,
      read_values-padded n k buf (offset + 8) values c (omega arith) (omega arith) all rest,
    )

-- The places are the numbers, and the unused ones.
pub padded-replicate :
    (zs : List ℤ) (n : ℕ) → length zs ≤ n → padded zs n ≡ zs ++ replicate (n - length zs) i32_min
padded-replicate [] zero h = refl
padded-replicate (z ∷ zs) zero h = absurd (omega arith)
padded-replicate [] (suc n) h =
    ap (λ l. i32_min ∷ l) (padded-replicate [] n (omega arith))
    ∙ ap (λ (k : ℕ). replicate k i32_min) {x = suc (n - 0)} {y = suc n - 0} (omega arith)
padded-replicate (z ∷ zs) (suc n) h =
    ap (λ l. z ∷ l)
      (padded-replicate zs n (omega arith)
        ∙ ap (λ (k : ℕ). zs ++ replicate k i32_min) {x = n - length zs}
            {y = suc n - suc (length zs)} (omega arith))
