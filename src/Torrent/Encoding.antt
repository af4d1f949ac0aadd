-- ===== src/Torrent/Encoding.antt =====
-- An independent description of bencoding, the format that internal/application/torrentmeta.go reads.
use filelist_streaming_servi.Base.{
  ℕ, zero, suc, ◌+◌, ◌-◌, ◌*◌, ◌/◌, ◌%◌, ◌^◌, ◌≤◌, ◌<◌, ◌≡◌, refl, ◌∙◌, inl, inr, true, false, some,
  [], ◌∷◌, ◌++◌, length, arith, ltb, All, Bool-cases, leb, ap, ◌&&◌, ◌⊎◌, ◌==◌,
}
use filelist_streaming_servi.Torrent.{
  Bytes, Node, Nodes, Entries, leaf, list, dict, no_nodes, node, no_entries, set_entry,
  digits_value, signed_value, parse_int, parse_natural, cut_at,
}

mutual
  pub data Value : Type 0 where
    number : ℕ → Value
    text : Bytes → Value
    items : Values → Value
    fields : Fields → Value

  pub data Values : Type 0 where
    end : Values
    cons : Value → Values → Values

  pub data Fields : Type 0 where
    stop : Fields
    field : Bytes → Value → Fields → Fields

-- The decimal digits of `n` before `after`.
unfoldable pub decimal_before : ℕ → ℕ → Bytes → Bytes
decimal_before zero n after = after
decimal_before (suc fuel) n after = elim (ltb n 10) [
  | true ↦ (48 + n) ∷ after
  | false ↦ decimal_before fuel (n / 10) ((48 + n % 10) ∷ after)
]

unfoldable pub decimal : ℕ → Bytes
unfolding decimal_before
decimal n = decimal_before (suc n) n []

unfoldable pub write_text : Bytes → Bytes → Bytes
unfolding decimal
write_text bytes after = decimal (length bytes) ++ (58 ∷ (bytes ++ after))

-- The encoding of a value, before the bytes `after`.
unfoldable mutual
  unfolding write_text

  pub write : Value → Bytes → Bytes
  write (number n) after = 105 ∷ (decimal n ++ (101 ∷ after))
  write (text bytes) after = write_text bytes after
  write (items values) after = 108 ∷ write_items values (101 ∷ after)
  write (fields entries) after = 100 ∷ write_fields entries (101 ∷ after)

  pub write_items : Values → Bytes → Bytes
  write_items end after = after
  write_items (cons value values) after = write value (write_items values after)

  pub write_fields : Fields → Bytes → Bytes
  write_fields stop after = after
  write_fields (field key value entries) after =
      write_text key (write value (write_fields entries after))

-- The node that a value stands for: a number is its digits, and the last field of a key counts.
unfoldable mutual
  unfolding decimal set_entry

  pub meaning : Value → Node
  meaning (number n) = leaf (decimal n)
  meaning (text bytes) = leaf bytes
  meaning (items values) = list (meaning_items values)
  meaning (fields entries) = dict (add_fields no_entries entries)

  pub meaning_items : Values → Nodes
  meaning_items end = no_nodes
  meaning_items (cons value values) = node (meaning value) (meaning_items values)

  pub add_fields : Entries → Fields → Entries
  add_fields seen stop = seen
  add_fields seen (field key value entries) =
      add_fields (set_entry key (meaning value) seen) entries

abbrev pub Digit : ℕ → Type 0
Digit c = (48 ≤ c) × (c ≤ 57)

digits_value-digit :
    (m d : ℕ) (s : Bytes) → d < 10 → digits_value m ((48 + d) ∷ s) ≡ digits_value (m * 10 + d) s
unfolding digits_value
digits_value-digit m d s h =
    let e : (leb 48 (48 + d) && leb (48 + d) 57) ≡ true = ground arith in
    let f : m * 10 + (48 + d - 48) ≡ m * 10 + d = omega arith in rw (digits_value, e, f) refl

digits_value-nil : (n : ℕ) → digits_value n [] ≡ some n
unfolding digits_value
digits_value-nil n = refl

-- The digits of `n`, read after a number that ends before them, give `n`.
digits_value-decimal_before :
    (fuel n : ℕ) (after : Bytes)
    → n < fuel
    → digits_value 0 (decimal_before fuel n after) ≡ digits_value n after
unfolding decimal_before
digits_value-decimal_before zero n after h = absurd (omega arith)
digits_value-decimal_before (suc fuel) n after h = elim (Bool-cases (ltb n 10)) [
  | inl e ↦
      rw (decimal_before, e)
        (digits_value-digit 0 n after (ground arith) ∙ ap (λ k. digits_value k after) (omega arith))
  | inr e ↦
      rw (decimal_before, e)
        (digits_value-decimal_before fuel (n / 10) ((48 + n % 10) ∷ after) (ground arith)
          ∙ digits_value-digit (n / 10) (n % 10) after (omega arith)
          ∙ ap (λ k. digits_value k after) (omega arith))
]

Digit-decimal_before :
    (fuel n : ℕ) (after : Bytes) → All Digit after → All Digit (decimal_before fuel n after)
unfolding decimal_before
Digit-decimal_before zero n after a = a
Digit-decimal_before (suc fuel) n after a = elim (Bool-cases (ltb n 10)) [
  | inl e ↦ rw (All, e) (ground arith, a)
  | inr e ↦ rw (All, e) (Digit-decimal_before fuel (n / 10) _ (omega arith, a))
]

pub Digit-decimal : (n : ℕ) → All Digit (decimal n)
unfolding decimal
Digit-decimal n = Digit-decimal_before (suc n) n [] tt

length-decimal_before :
    (fuel n : ℕ) (after : Bytes) → length after < length (decimal_before (suc fuel) n after)
unfolding decimal_before
length-decimal_before zero n after = ground arith
length-decimal_before (suc fuel) n after = elim (Bool-cases (ltb n 10)) [
  | inl e ↦ rw (decimal_before, e) (omega arith)
  | inr e ↦
      rw (decimal_before, e)
        (omega (arith, length-decimal_before fuel (n / 10) ((48 + n % 10) ∷ after)))
]

parse_natural-digits :
    (n : ℕ) (s : Bytes)
    → All Digit s
    → 0 < length s
    → digits_value 0 s ≡ some n
    → n < 2 ^ 63
    → parse_natural s ≡ some n
unfolding parse_natural
parse_natural-digits n [] a l e h = absurd (omega arith)
parse_natural-digits n (c ∷ s) a l e h =
    let plus : (c == 43) ≡ false = ground arith in
    let minus : (c == 45) ≡ false = ground arith in
    let small : ltb n (2 ^ 63) ≡ true = ground arith in
    rw (parse_natural, parse_int, plus, minus, signed_value, e, small) refl

-- A decimal number is read back where it fits an `int64`.
pub parse_natural-decimal : (n : ℕ) → n < 2 ^ 63 → parse_natural (decimal n) ≡ some n
unfolding decimal
parse_natural-decimal n h =
    parse_natural-digits n (decimal n) (Digit-decimal n) (length-decimal_before n n [])
      (digits_value-decimal_before (suc n) n [] (omega arith) ∙ digits_value-nil n) h

-- The bytes before a byte that is none of theirs.
pub cut_at-append :
    (c : ℕ) (digits after : Bytes)
    → c < 48 ⊎ (57 < c)
    → All Digit digits
    → cut_at c (digits ++ (c ∷ after)) ≡ some (digits, after)
unfolding cut_at
cut_at-append c [] after h a = let e : (c == c) ≡ true = ground arith in rw (cut_at, e) refl
cut_at-append c (b ∷ digits) after h a =
    let e : (b == c) ≡ false = ground arith in
    rw (cut_at, e, cut_at-append c digits after h a.1) refl

first-Digit :
    (s : Bytes) → All Digit s → 0 < length s → (c : ℕ) × (rest : Bytes) × (s ≡ c ∷ rest) × Digit c
first-Digit [] a l = absurd (omega arith)
first-Digit (c ∷ s) a l = (c, s, refl, a.0)

pub decimal-Digit : (n : ℕ) → (c : ℕ) × (rest : Bytes) × (decimal n ≡ c ∷ rest) × Digit c
unfolding decimal
decimal-Digit n = first-Digit (decimal n) (Digit-decimal n) (length-decimal_before n n [])
