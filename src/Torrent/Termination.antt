-- ===== src/Torrent/Termination.antt =====
-- The reader of internal/application/torrentmeta.go ends: the recursion of `readBNode` needs at most twice as
-- many calls as there are bytes.
use filelist_streaming_servi.Base.{
  ℕ, zero, suc, ◌+◌, ◌*◌, ◌<◌, ◌≡◌, refl, ap, ◌≢◌, inl, inr, [], ◌∷◌, Result, ok, err, ◌>>=◌,
  length, length-append, arith, ◌==◌, Bool-cases, subst,
}
use filelist_streaming_servi.Torrent.{
  Bytes, Node, Entries, ReadError, no_fuel, At, read_integer, slice_text, read_text, read_node,
  read_items, read_pairs, read_root,
}
use filelist_streaming_servi.Torrent.Bounds.{Moved, Reads, read_node-Reads}

then_fueled :
    {A B : Type 0} (q : Result ReadError (At A)) (k : At A → Result ReadError (At B))
    → q ≢ err no_fuel
    → ((r : At A) → q ≡ ok r → k r ≢ err no_fuel)
    → (q >>= k) ≢ err no_fuel
then_fueled (ok r) k m n = n r refl
then_fueled (err e) k m n = λ h. m (ground arith)

read_integer-fueled : (pos : ℕ) (bytes : Bytes) → read_integer pos bytes ≢ err no_fuel
unfolding read_integer
read_integer-fueled pos bytes = ground arith

read_text-fueled : (pos : ℕ) (bytes : Bytes) → read_text pos bytes ≢ err no_fuel
unfolding read_text slice_text
read_text-fueled pos bytes = ground arith

-- A read leaves fewer bytes.
rest_shorter :
    (fuel pos : ℕ) (bytes : Bytes) (r : At Node)
    → read_node fuel pos bytes ≡ ok r
    → length r.rest < length bytes
rest_shorter fuel pos bytes r e =
    let m : Moved pos bytes r = subst (Reads pos bytes) e (read_node-Reads fuel pos bytes) in
    omega (arith, ap length m.rest_left, length-append m.used r.rest, m.some_used)

mutual
  unfolding read_node

  read_node-fueled :
      (fuel pos : ℕ) (bytes : Bytes)
      → length bytes * 2 < fuel
      → read_node fuel pos bytes ≢ err no_fuel
  read_node-fueled zero pos bytes h = absurd (omega arith)
  read_node-fueled (suc fuel) pos [] h = ground arith
  read_node-fueled (suc fuel) pos (c ∷ bytes) h = elim (Bool-cases (c == 105)) [
    | inl e ↦ rw (read_node, e) (read_integer-fueled pos bytes)
    | inr e ↦ elim (Bool-cases (c == 108)) [
      | inl f ↦
          rw (read_node, e, f)
            (then_fueled _ _ (read_items-fueled fuel (pos + 1) bytes (omega arith))
              λ r g. ground arith)
      | inr f ↦ elim (Bool-cases (c == 100)) [
        | inl g ↦
            rw (read_node, e, f, g)
              (then_fueled _ _ (read_pairs-fueled fuel (pos + 1) bytes _ (omega arith))
                λ r k. ground arith)
        | inr g ↦ rw (read_node, e, f, g) (read_text-fueled pos (c ∷ bytes))
      ]
    ]
  ]

  read_items-fueled :
      (fuel pos : ℕ) (bytes : Bytes)
      → length bytes * 2 + 1 < fuel
      → read_items fuel pos bytes ≢ err no_fuel
  read_items-fueled zero pos bytes h = absurd (omega arith)
  read_items-fueled (suc fuel) pos [] h = ground arith
  read_items-fueled (suc fuel) pos (c ∷ bytes) h = elim (Bool-cases (c == 101)) [
    | inl e ↦ rw (read_items, e) (ground arith)
    | inr e ↦
        rw (read_items, e)
          (then_fueled _ _ (read_node-fueled fuel pos (c ∷ bytes) (omega arith)) λ child f.
            then_fueled _ _
              (read_items-fueled fuel child.pos child.rest
                (omega (arith, rest_shorter fuel pos (c ∷ bytes) child f)))
              λ r k. ground arith)
  ]

  read_pairs-fueled :
      (fuel pos : ℕ) (bytes : Bytes) (seen : Entries)
      → length bytes * 2 + 1 < fuel
      → read_pairs fuel pos bytes seen ≢ err no_fuel
  read_pairs-fueled zero pos bytes seen h = absurd (omega arith)
  read_pairs-fueled (suc fuel) pos [] seen h = ground arith
  read_pairs-fueled (suc fuel) pos (c ∷ bytes) seen h = elim (Bool-cases (c == 101)) [
    | inl e ↦ rw (read_pairs, e) (ground arith)
    | inr e ↦
        rw (read_pairs, e)
          (then_fueled _ _ (read_node-fueled fuel pos (c ∷ bytes) (omega arith)) λ key f.
            then_fueled _ _
              (read_node-fueled fuel key.pos key.rest
                (omega (arith, rest_shorter fuel pos (c ∷ bytes) key f)))
              λ value g. read_pairs-fueled fuel value.pos value.rest _ (
                omega (
                  arith,
                  rest_shorter fuel pos (c ∷ bytes) key f,
                  rest_shorter fuel key.pos key.rest value g,
                )))
  ]

-- The recursion ends for every input: the fuel that `read_root` gives is enough.
pub read_root-ends : (bytes : Bytes) → read_root bytes ≢ err no_fuel
unfolding read_root
read_root-ends bytes = read_node-fueled _ 0 bytes (omega arith)
