-- ===== src/Torrent/Overflow.antt =====
-- The length test of a text in `readBNode` of internal/application/torrentmeta.go, at lengths near the
-- end of the range of an `int`.
use filelist_streaming_servi.Base.{
  ◌%◌, ℕ, zero, suc, ◌∙◌, ◌+◌, ◌^◌, ◌≤◌, ◌<◌, ◌≡◌, ◌↔◌, refl, inr, false, some, ◌∷◌, ◌++◌, err,
  length, arith, ◌==◌, length-append,
}
use filelist_streaming_servi.Torrent.{
  Bytes, slice_panic, slice_text, read_text, read_node, read_root, cut_at,
}
use filelist_streaming_servi.Torrent.Encoding.{
  decimal, parse_natural-decimal, cut_at-append, Digit-decimal, decimal-Digit,
}

pub read_text-decimal :
    (pos n : ℕ) (after : Bytes)
    → n < 2 ^ 63
    → read_text pos (decimal n ++ (58 ∷ after)) ≡ slice_text n (pos + length (decimal n) + 1) after
unfolding read_text
read_text-decimal pos n after h =
    let e : cut_at 58 (decimal n ++ (58 ∷ after)) ≡ some (decimal n, after) =
      cut_at-append 58 (decimal n) after (inr (omega arith)) (Digit-decimal n) in
    rw (read_text, e, parse_natural-decimal n h) refl

pub read_node-decimal :
    (fuel pos n : ℕ) (after : Bytes)
    → read_node (suc fuel) pos (decimal n ++ (58 ∷ after))
      ≡ read_text pos (decimal n ++ (58 ∷ after))
unfolding read_node
read_node-decimal fuel pos n after =
    let (c, rest, e, d) = decimal-Digit n in
    let f : (c == 105) ≡ false = ground arith in
    let g : (c == 108) ≡ false = ground arith in
    let h : (c == 100) ≡ false = ground arith in rw (e, read_node, f, g, h) refl

slice_text-panic :
    (n start : ℕ) (after : Bytes)
    → n < 2 ^ 63
    → start + length after < 2 ^ 63
    → (slice_text n start after ≡ err slice_panic) ↔ (2 ^ 63 ≤ start + n)
unfolding slice_text
slice_text-panic n start after h l =
    let end : (start + n) % 2 ^ 64 ≡ start + n = omega arith in rw (slice_text, end) (ground arith)

read_node-sliced :
    (fuel n : ℕ) (after : Bytes)
    → 0 < fuel
    → n < 2 ^ 63
    → read_node fuel 0 (decimal n ++ (58 ∷ after)) ≡ slice_text n (0 + length (decimal n) + 1) after
read_node-sliced zero n after f h = absurd (omega arith)
read_node-sliced (suc fuel) n after f h =
    read_node-decimal fuel 0 n after ∙ read_text-decimal 0 n after h

-- A text that declares a length which an `int` holds, in data whose length an `int` holds, panics, whatever
-- follows, exactly where the end of the text is beyond the range of an `int`: the length test compares
-- the wrapped, negative sum and does not see it.
pub read_root-panic :
    (n : ℕ) (after : Bytes)
    → n < 2 ^ 63
    → length (decimal n ++ (58 ∷ after)) < 2 ^ 63
    → (read_root (decimal n ++ (58 ∷ after)) ≡ err slice_panic)
      ↔ (2 ^ 63 ≤ length (decimal n) + 1 + n)
unfolding read_root
read_root-panic n after h l =
    let e : read_root (decimal n ++ (58 ∷ after))
        ≡ slice_text n (0 + length (decimal n) + 1) after =
      read_node-sliced _ n after (omega arith) h in
    let fits : 0 + length (decimal n) + 1 + length after < 2 ^ 63 =
      omega (arith, length-append (decimal n) (58 ∷ after)) in
    rw (e) (ground (arith, slice_text-panic n (0 + length (decimal n) + 1) after h fits))
