-- ===== src/Torrent/RoundTrip.antt =====
-- Reading what the bencoding of a value gives back the value: the reader of
-- internal/application/torrentmeta.go against the format.
use filelist_streaming_servi.Base.{
  ◌%◌, ◌-◌, ◌||◌, ℕ, zero, suc, ◌+◌, ◌*◌, ◌^◌, ◌<◌, ◌≡◌, refl, ◌∙◌, ap, inr, false, some, [], ◌∷◌,
  ◌++◌, ok, ◌>>=◌, length, length-append, arith, ltb, ◌==◌, Result,
}
use filelist_streaming_servi.Torrent.{
  exceeds, slice, Bytes, Entries, ReadError, At, leaf, node, read_integer, slice_text, read_text,
  first, beyond, read_node, read_items, read_pairs, read_root, value_of, set_entry, cut_at,
  no_entries,
}
use filelist_streaming_servi.Torrent.Overflow.{read_text-decimal, read_node-decimal}
use filelist_streaming_servi.Torrent.Encoding.{
  Value, Values, Fields, number, text, items, fields, end, cons, stop, field, decimal, write_text,
  write, write_items, write_fields, meaning, meaning_items, add_fields, cut_at-append,
  Digit-decimal, decimal-Digit,
}

-- The number of bytes that a value's encoding has.
abbrev text_extent : Bytes → ℕ
text_extent bytes = length (decimal (length bytes)) + 1 + length bytes

unfoldable mutual
  pub extent : Value → ℕ
  extent (number n) = length (decimal n) + 2
  extent (text bytes) = text_extent bytes
  extent (items values) = extent_items values + 2
  extent (fields entries) = extent_fields entries + 2

  pub extent_items : Values → ℕ
  extent_items end = 0
  extent_items (cons value values) = extent value + extent_items values

  pub extent_fields : Fields → ℕ
  extent_fields stop = 0
  extent_fields (field key value entries) = text_extent key + extent value + extent_fields entries

first-append : (bytes after : Bytes) → first (length bytes) (bytes ++ after) ≡ bytes
unfolding first
first-append [] after = refl
first-append (b ∷ bytes) after = ap (λ s. b ∷ s) (first-append bytes after)

beyond-append : (bytes after : Bytes) → beyond (length bytes) (bytes ++ after) ≡ after
unfolding beyond
beyond-append [] after = refl
beyond-append (b ∷ bytes) after = beyond-append bytes after

read_integer-decimal :
    (pos n : ℕ) (after : Bytes)
    → read_integer pos (decimal n ++ (101 ∷ after))
      ≡ ok (record { item = leaf (decimal n); pos = pos + (length (decimal n) + 2); rest = after })
unfolding read_integer
read_integer-decimal pos n after =
    let e : cut_at 101 (decimal n ++ (101 ∷ after)) ≡ some (decimal n, after) =
      cut_at-append 101 (decimal n) after (inr (omega arith)) (Digit-decimal n) in
    rw (read_integer, e)
      (ap (λ p. ok (record { item = leaf (decimal n); pos = p; rest = after })) (omega arith))

read_text-write_text :
    (pos : ℕ) (bytes after : Bytes)
    → pos + text_extent bytes < 2 ^ 63
    → read_text pos (write_text bytes after)
      ≡ ok (record { item = leaf bytes; pos = pos + text_extent bytes; rest = after })
unfolding write_text slice_text
read_text-write_text pos bytes after h =
    let start : ℕ = pos + length (decimal (length bytes)) + 1 in
    let last : (start + length bytes) % 2 ^ 64 ≡ start + length bytes = omega arith in
    let size : (start + length bytes) - start ≡ length bytes = omega arith in
    let total : length (bytes ++ after) ≡ length bytes + length after = length-append bytes after in
    let k : exceeds (start + length bytes) (start + length (bytes ++ after)) ≡ false =
      ground arith in
    let g : (ltb (start + length bytes) start
          || ltb (start + length (bytes ++ after)) (start + length bytes))
        ≡ false =
      ground arith in
    read_text-decimal pos (length bytes) (bytes ++ after) (omega arith)
    ∙ rw (slice_text, last, k, slice, g, size, first-append bytes after, beyond-append bytes after)
        (ap (λ p. ok (record { item = leaf bytes; pos = p; rest = after })) (omega arith))

-- A text is told from the other nodes by its first byte, a digit.
read_node-write_text :
    (fuel pos : ℕ) (bytes after : Bytes)
    → read_node (suc fuel) pos (write_text bytes after) ≡ read_text pos (write_text bytes after)
unfolding write_text
read_node-write_text fuel pos bytes after =
    read_node-decimal fuel pos (length bytes) (bytes ++ after)

-- No encoding starts with the byte that ends a list.
write_text-opens :
    (bytes after : Bytes)
    → (c : ℕ) × (rest : Bytes) × (write_text bytes after ≡ c ∷ rest) × ((c == 101) ≡ false)
unfolding write_text
write_text-opens bytes after =
    let (c, rest, e, d) = decimal-Digit (length bytes) in
    (c, rest ++ (58 ∷ (bytes ++ after)), ap (λ s. s ++ (58 ∷ (bytes ++ after))) e, ground arith)

write-opens :
    (value : Value) (after : Bytes)
    → (c : ℕ) × (rest : Bytes) × (write value after ≡ c ∷ rest) × ((c == 101) ≡ false)
unfolding write
write-opens (number n) after = (_, _, refl, refl)
write-opens (text bytes) after = write_text-opens bytes after
write-opens (items values) after = (_, _, refl, refl)
write-opens (fields entries) after = (_, _, refl, refl)

extent-pos : (value : Value) → 0 < extent value
unfolding extent
extent-pos (number n) = omega arith
extent-pos (text bytes) = omega arith
extent-pos (items values) = omega arith
extent-pos (fields entries) = omega arith

abbrev reached : {A : Type 0} → A → ℕ → Bytes → Result ReadError (At A)
reached x pos rest = ok (record { item = x; pos = pos; rest = rest })

reached-pos :
    {A : Type 0} (x : A) (p q : ℕ) (rest : Bytes) → p ≡ q → reached x p rest ≡ reached x q rest
reached-pos x p q rest e = ap (λ k. reached x k rest) e

read_items-open :
    (fuel pos : ℕ) (value : Value) (after : Bytes)
    → read_items (suc fuel) pos (write value after) ≡ (
        read_node fuel pos (write value after) >>= λ child.
        read_items fuel child.pos child.rest >>= λ r. reached (node child.item r.item) r.pos r.rest)
unfolding read_node
read_items-open fuel pos value after =
    let (c, rest, e, f) = write-opens value after in rw (e, read_items, f) refl

read_pairs-open :
    (fuel pos : ℕ) (key after : Bytes) (seen : Entries)
    → read_pairs (suc fuel) pos (write_text key after) seen ≡ (
        read_node fuel pos (write_text key after) >>= λ k. read_node fuel k.pos k.rest >>= λ v.
        read_pairs fuel v.pos v.rest (set_entry (value_of k.item) v.item seen))
unfolding read_node
read_pairs-open fuel pos key after seen =
    let (c, rest, e, f) = write_text-opens key after in rw (e, read_pairs, f) refl

mutual
  unfolding read_node write meaning extent

  pub read_node-write :
      (value : Value) (fuel pos : ℕ) (after : Bytes)
      → extent value * 2 < fuel
      → pos + extent value < 2 ^ 63
      → read_node fuel pos (write value after) ≡ reached (meaning value) (pos + extent value) after
  read_node-write value zero pos after f h = absurd (omega arith)
  read_node-write (number n) (suc fuel) pos after f h = read_integer-decimal pos n after
  read_node-write (text bytes) (suc fuel) pos after f h =
      read_node-write_text fuel pos bytes after ∙ read_text-write_text pos bytes after h
  read_node-write (items values) (suc fuel) pos after f h =
      rw (read_items-write values fuel (pos + 1) after (omega arith) (omega arith))
        (reached-pos _ _ _ after (omega arith))
  read_node-write (fields entries) (suc fuel) pos after f h =
      rw (read_pairs-write entries fuel (pos + 1) after no_entries (omega arith) (omega arith))
        (reached-pos _ _ _ after (omega arith))

  read_items-write :
      (values : Values) (fuel pos : ℕ) (after : Bytes)
      → extent_items values * 2 + 1 < fuel
      → pos + extent_items values + 1 < 2 ^ 63
      → read_items fuel pos (write_items values (101 ∷ after))
        ≡ reached (meaning_items values) (pos + extent_items values + 1) after
  read_items-write values zero pos after f h = absurd (omega arith)
  read_items-write end (suc fuel) pos after f h = reached-pos _ _ _ after (omega arith)
  read_items-write (cons value values) (suc fuel) pos after f h =
      let p : 0 < extent value = extent-pos value in
      read_items-open fuel pos value (write_items values (101 ∷ after))
      ∙ rw
          (
            read_node-write value fuel pos (write_items values (101 ∷ after)) (omega arith)
                (omega arith),
            read_items-write values fuel (pos + extent value) after (omega arith) (omega arith),
          )
          (reached-pos _ _ _ after (omega arith))

  read_pairs-write :
      (entries : Fields) (fuel pos : ℕ) (after : Bytes) (seen : Entries)
      → extent_fields entries * 2 + 1 < fuel
      → pos + extent_fields entries + 1 < 2 ^ 63
      → read_pairs fuel pos (write_fields entries (101 ∷ after)) seen
        ≡ reached (add_fields seen entries) (pos + extent_fields entries + 1) after
  read_pairs-write entries zero pos after seen f h = absurd (omega arith)
  read_pairs-write stop (suc fuel) pos after seen f h = reached-pos _ _ _ after (omega arith)
  read_pairs-write (field key value entries) (suc fuel) pos after seen f h =
      let p : 0 < extent value = extent-pos value in
      let tail : Bytes = write value (write_fields entries (101 ∷ after)) in
      read_pairs-open fuel pos key tail seen
      ∙ rw
          (
            read_node-write (text key) fuel pos tail (omega arith) (omega arith),
            read_node-write value fuel (pos + text_extent key) (write_fields entries (101 ∷ after))
                (omega arith) (omega arith),
            read_pairs-write entries fuel (pos + text_extent key + extent value) after
                (set_entry key (meaning value) seen) (omega arith) (omega arith),
          )
          (reached-pos _ _ _ after (omega arith))

length-write_text :
    (bytes after : Bytes) → length (write_text bytes after) ≡ text_extent bytes + length after
unfolding write_text
length-write_text bytes after = omega (
  arith,
  length-append (decimal (length bytes)) (58 ∷ (bytes ++ after)),
  length-append bytes after,
)

mutual
  unfolding write extent write_text

  length-write :
      (value : Value) (after : Bytes) → length (write value after) ≡ extent value + length after
  length-write (number n) after = omega (arith, length-append (decimal n) (101 ∷ after))
  length-write (text bytes) after = length-write_text bytes after
  length-write (items values) after = omega (arith, length-write_items values (101 ∷ after))
  length-write (fields entries) after = omega (arith, length-write_fields entries (101 ∷ after))

  length-write_items :
      (values : Values) (after : Bytes)
      → length (write_items values after) ≡ extent_items values + length after
  length-write_items end after = omega arith
  length-write_items (cons value values) after =
      omega (arith, length-write value (write_items values after), length-write_items values after)

  length-write_fields :
      (entries : Fields) (after : Bytes)
      → length (write_fields entries after) ≡ extent_fields entries + length after
  length-write_fields stop after = omega arith
  length-write_fields (field key value entries) after = omega (
    arith,
    length-write_text key (write value (write_fields entries after)),
    length-write value (write_fields entries after),
    length-write_fields entries after,
  )

-- Reading the encoding of a value, in data shorter than 2^63 bytes, gives the node that the value
-- stands for and stops right behind it, whatever follows.
pub read_root-write :
    (value : Value) (after : Bytes)
    → length (write value after) < 2 ^ 63
    → read_root (write value after)
      ≡ ok (record { item = meaning value; pos = extent value; rest = after })
unfolding read_root
read_root-write value after h =
    let e : length (write value after) ≡ extent value + length after = length-write value after in
    read_node-write value (length (write value after) * 2 + 1) 0 after (omega arith) (omega arith)
    ∙ reached-pos _ _ _ after (omega arith)
