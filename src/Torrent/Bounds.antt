-- ===== src/Torrent/Bounds.antt =====
-- The position of the reader of internal/application/torrentmeta.go: it moves forward and stays in the data.
use mathlib.Core.List.{append_assoc}
use filelist_streaming_servi.Base.{
  false, ◌%◌, ◌-◌, ◌||◌, ℕ, zero, suc, ◌+◌, ◌^◌, ◌≤◌, ◌<◌, ◌≡◌, refl, sym, ◌∙◌, ap, inl, inr, none,
  some, Option, [], ◌∷◌, ◌++◌, Result, ok, err, ◌>>=◌, length, length-append, arith, ◌==◌, ltb,
  Bool-cases, Option-cases, subst,
}
use filelist_streaming_servi.Torrent.{
  exceeds, slice, Bytes, Node, Entries, ReadError, At, cut_at, beyond, first, read_integer, list,
  dict, node, parse_natural, slice_text, read_text, read_node, read_items, read_pairs, read_root,
}

-- A read at `pos` that took `used` from the front of `bytes`.
pub record Moved {A : Type 0} (pos : ℕ) (bytes : Bytes) (r : At A) : Type 0 where
  pub used : Bytes
  pub some_used : 0 < length used
  pub pos_moved : r.pos ≡ pos + length used
  pub rest_left : bytes ≡ used ++ r.rest

-- What a read gives: progress, where it succeeds.
abbrev pub Reads : {A : Type 0} → ℕ → Bytes → Result ReadError (At A) → Type 0
Reads pos bytes (ok r) = Moved pos bytes r
Reads pos bytes (err _) = Unit

abbrev Cut : ℕ → Bytes → Option (Bytes × Bytes) → Type 0
Cut c bytes none = Unit
Cut c bytes (some (before, after)) = bytes ≡ before ++ (c ∷ after)

cut_at-Cut : (c : ℕ) (bytes : Bytes) → Cut c bytes (cut_at c bytes)
unfolding cut_at
cut_at-Cut c [] = tt
cut_at-Cut c (b ∷ bytes) = ground (arith, cut_at-Cut c bytes)

cut_at-some :
    (c : ℕ) (bytes before after : Bytes)
    → cut_at c bytes ≡ some (before, after)
    → bytes ≡ before ++ (c ∷ after)
cut_at-some c bytes before after e = subst (Cut c bytes) e (cut_at-Cut c bytes)

first-beyond : (n : ℕ) (bytes : Bytes) → bytes ≡ first n bytes ++ beyond n bytes
unfolding first beyond
first-beyond zero bytes = refl
first-beyond (suc n) [] = refl
first-beyond (suc n) (b ∷ bytes) = ap (λ s. b ∷ s) (first-beyond n bytes)

length-first : (n : ℕ) (bytes : Bytes) → n ≤ length bytes → length (first n bytes) ≡ n
unfolding first
length-first zero bytes h = refl
length-first (suc n) [] h = omega arith
length-first (suc n) (b ∷ bytes) h = omega (arith, length-first n bytes (omega arith))

-- What follows a read that moved is a read of the whole.
Reads-after :
    {A B : Type 0} (pos : ℕ) (bytes : Bytes) (r : At A) (q : Result ReadError (At B))
    → Moved pos bytes r
    → Reads r.pos r.rest q
    → Reads pos bytes q
Reads-after pos bytes r (ok q) m n = record {
  used = m.used ++ n.used;
  some_used = omega (arith, m.some_used, length-append m.used n.used);
  pos_moved = omega (arith, m.pos_moved, n.pos_moved, length-append m.used n.used);
  rest_left =
      m.rest_left ∙ ap (λ s. m.used ++ s) n.rest_left ∙ sym (append_assoc m.used n.used q.rest);
}
Reads-after pos bytes r (err e) m n = tt

read_integer-Reads : (c pos : ℕ) (bytes : Bytes) → Reads pos (c ∷ bytes) (read_integer pos bytes)
unfolding read_integer
read_integer-Reads c pos bytes = elim (Option-cases (cut_at 101 bytes)) [
  | inl e ↦ rw (Reads, e) tt
  | inr ((value, after), e) ↦
      rw (Reads, e)
        (record {
          used = c ∷ (value ++ (101 ∷ []));
          some_used = omega arith;
          pos_moved = omega (arith, length-append value (101 ∷ []));
          rest_left =
              ap (λ s. c ∷ s)
                (cut_at-some 101 bytes value after e ∙ sym (append_assoc value (101 ∷ []) after));
        })
]

end_moved :
    (n pos : ℕ) (digits after : Bytes)
    → let start = pos + length digits + 1 in
      let end = (start + n) % 2 ^ 64 in
      (ltb end start || ltb (start + length after) end) ≡ false
      → end ≡ pos + length (digits ++ (58 ∷ first (end - start) after))
end_moved n pos digits after f =
    let start = pos + length digits + 1 in
    let end = (start + n) % 2 ^ 64 in
    let between : (start ≤ end) × (end ≤ start + length after) = ground arith in
    omega (
      arith,
      between,
      length-append digits (58 ∷ first (end - start) after),
      length-first (end - start) after (omega (arith, between)),
    )

slice_text-Reads :
    (n pos : ℕ) (digits after : Bytes)
    → Reads pos (digits ++ (58 ∷ after)) (slice_text n (pos + length digits + 1) after)
unfolding slice_text
slice_text-Reads n pos digits after =
    let start = pos + length digits + 1 in
    let end = (start + n) % 2 ^ 64 in
    elim (Bool-cases (exceeds end (start + length after))) [
      | inl e ↦ rw (slice_text, e) tt
      | inr e ↦ elim (Bool-cases (ltb end start || ltb (start + length after) end)) [
        | inl f ↦ rw (slice_text, e, slice, f) tt
        | inr f ↦
            let size = end - start in
            rw (slice_text, e, slice, f)
              (record {
                used = digits ++ (58 ∷ first size after);
                some_used = omega (arith, length-append digits (58 ∷ first size after));
                pos_moved = end_moved n pos digits after f;
                rest_left =
                    ap (λ s. digits ++ (58 ∷ s)) (first-beyond size after)
                    ∙ sym (append_assoc digits (58 ∷ first size after) (beyond size after));
              })
      ]
    ]

read_text-Reads : (pos : ℕ) (bytes : Bytes) → Reads pos bytes (read_text pos bytes)
unfolding read_text
read_text-Reads pos bytes = elim (Option-cases (cut_at 58 bytes)) [
  | inl e ↦ rw (Reads, e) tt
  | inr ((digits, after), e) ↦ elim (Option-cases (parse_natural digits)) [
    | inl f ↦ rw (Reads, e, f) tt
    | inr (n, f) ↦
        rw (Reads, e, f)
          (subst (λ b. Reads pos b (slice_text n (pos + length digits + 1) after))
            (sym (cut_at-some 58 bytes digits after e)) (slice_text-Reads n pos digits after))
  ]
]

Reads-map :
    {A B : Type 0} (f : A → B) (pos : ℕ) (bytes : Bytes) (q : Result ReadError (At A))
    → Reads pos bytes q
    → Reads pos bytes (q >>= λ r. ok (record { item = f r.item; pos = r.pos; rest = r.rest }))
Reads-map f pos bytes (ok q) m = record {
  used = m.used;
  some_used = m.some_used;
  pos_moved = m.pos_moved;
  rest_left = m.rest_left;
}
Reads-map f pos bytes (err e) m = tt

Reads-then :
    {A B : Type 0} (pos : ℕ) (bytes : Bytes) (q : Result ReadError (At A))
    (k : At A → Result ReadError (At B))
    → Reads pos bytes q
    → ((r : At A) → Reads r.pos r.rest (k r))
    → Reads pos bytes (q >>= k)
Reads-then pos bytes (ok q) k m n = Reads-after pos bytes q (k q) m (n q)
Reads-then pos bytes (err e) k m n = tt

first_byte :
    {A : Type 0} (c pos : ℕ) (bytes : Bytes) (q : Result ReadError (At A))
    → Reads (pos + 1) bytes q
    → Reads pos (c ∷ bytes) q
first_byte c pos bytes (ok q) m = record {
  used = c ∷ m.used;
  some_used = omega arith;
  pos_moved = omega (arith, m.pos_moved);
  rest_left = ap (λ s. c ∷ s) m.rest_left;
}
first_byte c pos bytes (err e) m = tt

closing_byte :
    {A : Type 0} (x : A) (c pos : ℕ) (bytes : Bytes)
    → Moved pos (c ∷ bytes) (record { item = x; pos = pos + 1; rest = bytes })
closing_byte x c pos bytes = record {
  used = c ∷ [];
  some_used = omega arith;
  pos_moved = omega arith;
  rest_left = refl;
}

mutual
  unfolding read_node

  pub read_node-Reads : (fuel pos : ℕ) (bytes : Bytes) → Reads pos bytes (read_node fuel pos bytes)
  read_node-Reads zero pos bytes = tt
  read_node-Reads (suc fuel) pos [] = tt
  read_node-Reads (suc fuel) pos (c ∷ bytes) = elim (Bool-cases (c == 105)) [
    | inl e ↦ rw (Reads, e) (read_integer-Reads c pos bytes)
    | inr e ↦ elim (Bool-cases (c == 108)) [
      | inl f ↦
          rw (Reads, e, f)
            (Reads-map list pos (c ∷ bytes) _
              (first_byte c pos bytes _ (read_items-Reads fuel (pos + 1) bytes)))
      | inr f ↦ elim (Bool-cases (c == 100)) [
        | inl g ↦
            rw (Reads, e, f, g)
              (Reads-map dict pos (c ∷ bytes) _
                (first_byte c pos bytes _ (read_pairs-Reads fuel (pos + 1) bytes _)))
        | inr g ↦ rw (Reads, e, f, g) (read_text-Reads pos (c ∷ bytes))
      ]
    ]
  ]

  read_items-Reads : (fuel pos : ℕ) (bytes : Bytes) → Reads pos bytes (read_items fuel pos bytes)
  read_items-Reads zero pos bytes = tt
  read_items-Reads (suc fuel) pos [] = tt
  read_items-Reads (suc fuel) pos (c ∷ bytes) = elim (Bool-cases (c == 101)) [
    | inl e ↦ rw (Reads, e) (closing_byte _ c pos bytes)
    | inr e ↦
        rw (Reads, e)
          (Reads-then pos (c ∷ bytes) _ _ (read_node-Reads fuel pos (c ∷ bytes)) λ child.
            Reads-map (node child.item) child.pos child.rest _
              (read_items-Reads fuel child.pos child.rest))
  ]

  read_pairs-Reads :
      (fuel pos : ℕ) (bytes : Bytes) (seen : Entries)
      → Reads pos bytes (read_pairs fuel pos bytes seen)
  read_pairs-Reads zero pos bytes seen = tt
  read_pairs-Reads (suc fuel) pos [] seen = tt
  read_pairs-Reads (suc fuel) pos (c ∷ bytes) seen = elim (Bool-cases (c == 101)) [
    | inl e ↦ rw (Reads, e) (closing_byte _ c pos bytes)
    | inr e ↦
        rw (Reads, e)
          (Reads-then pos (c ∷ bytes) _ _ (read_node-Reads fuel pos (c ∷ bytes)) λ key.
            Reads-then key.pos key.rest _ _ (read_node-Reads fuel key.pos key.rest)
              λ value. read_pairs-Reads fuel value.pos value.rest _)
  ]

-- A node that is read from the data ends at a position inside it, and what is left starts there.
pub read_root-InData :
    (bytes : Bytes) (r : At Node)
    → read_root bytes ≡ ok r
    → (used : Bytes) × (bytes ≡ used ++ r.rest) × (length used ≡ r.pos) × (0 < r.pos)
unfolding read_root
read_root-InData bytes r e =
    let m : Moved 0 bytes r = subst (Reads 0 bytes) e (read_node-Reads _ 0 bytes) in
    (m.used, m.rest_left, omega (arith, m.pos_moved), omega (arith, m.pos_moved, m.some_used))
