-- ===== src/Store/Ranges.antt =====
-- Ranges of bytes, written to a file and read from it.
use fiddlers_db.Prelude.{ℕ, ◌+◌, ◌-◌, ◌≤◌, ◌≡◌, ◌⊎◌, inl, inr, refl, sym, ap, ◌∙◌, arith, some}
use fiddlers_db.Prelude.{
  List, ◌++◌, length, take, drop, replicate, length-append, length-take, length-drop,
  length-replicate, take-append, drop-append, take-drop-append, drop-append_beyond, drop-drop,
  take-append-drop,
}
use fiddlers_db.Prelude.{le→leb}
use fiddlers_db.Store.FileStore.{write_at, read_at}

-- A byte range that was written, and one beside it.
module _ (content : List ℕ) (offset : ℕ) (bytes : List ℕ) where
  abbrev padded : List ℕ
  padded = content ++ replicate (offset - length content) 0

  abbrev after : List ℕ
  after = drop (offset + length bytes) content

  length-front : length (take offset padded) ≡ offset
  length-front = omega (
    arith,
    length-take offset padded,
    length-append content (replicate (offset - length content) 0),
    length-replicate {A = ℕ} (offset - length content) 0,
  )

  pub length-write_at :
      length (write_at content offset bytes)
      ≡ offset + length bytes + (length content - (offset + length bytes))
  unfolding write_at
  length-write_at = omega (
    arith,
    length-front,
    length-append (take offset padded) (bytes ++ after),
    length-append bytes after,
    length-drop (offset + length bytes) content,
  )

  front : drop offset (write_at content offset bytes) ≡ bytes ++ after
  unfolding write_at
  front = drop-append (take offset padded) (bytes ++ after) offset length-front

  pub read_at-write_at_self :
      read_at (write_at content offset bytes) offset (length bytes) ≡ some bytes
  unfolding read_at
  read_at-write_at_self = rw (
    le→leb (offset + length bytes) (length (write_at content offset bytes))
        (omega (arith, length-write_at)),
    ap (take (length bytes)) front,
    take-append bytes after (length bytes) refl,
  )

  taken_before :
      (i n : ℕ)
      → i + n ≤ offset
      → i + n ≤ length content
      → take n (drop i (write_at content offset bytes)) ≡ take n (drop i content)
  unfolding write_at
  taken_before i n before inside =
      take-drop-append n i (take offset padded) (bytes ++ after) (omega (arith, length-front))
      ∙ sym (
          take-drop-append n i (take offset padded) (drop offset padded)
            (omega (arith, length-front)))
      ∙ ap (λ l. take n (drop i l)) (take-append-drop offset padded)
      ∙ take-drop-append n i content (replicate (offset - length content) 0) inside

  taken_after :
      (i n : ℕ)
      → offset + length bytes ≤ i
      → take n (drop i (write_at content offset bytes)) ≡ take n (drop i content)
  unfolding write_at
  taken_after i n beyond = ap (take n) (
      drop-append_beyond i (take offset padded) (bytes ++ after) (omega (arith, length-front))
      ∙ ap (λ (k : ℕ). drop k (bytes ++ after)) {x = i - length (take offset padded)}
          {y = i - offset} (omega (arith, length-front))
      ∙ drop-append_beyond (i - offset) bytes after (omega arith)
      ∙ drop-drop (i - offset - length bytes) (offset + length bytes) i content (omega arith))

  pub read_at-write_at_apart :
      (i n : ℕ)
      → i + n ≤ length content
      → (i + n ≤ offset) ⊎ (offset + length bytes ≤ i)
      → read_at (write_at content offset bytes) i n ≡ read_at content i n
  unfolding read_at
  read_at-write_at_apart i n inside (inl before) = rw (
    le→leb (i + n) (length (write_at content offset bytes)) (omega (arith, length-write_at)),
    le→leb (i + n) (length content) inside,
    taken_before i n before inside,
  )
  read_at-write_at_apart i n inside (inr beyond) = rw (
    le→leb (i + n) (length (write_at content offset bytes)) (omega (arith, length-write_at)),
    le→leb (i + n) (length content) inside,
    taken_after i n beyond,
  )
