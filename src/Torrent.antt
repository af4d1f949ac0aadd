-- ===== src/Torrent.antt =====
-- internal/application/torrentmeta.go: the reader of bencoded torrent metadata. A byte is a number, and
-- `data[pos:]` stands beside the position `pos`. The limit of a goroutine's stack is not modelled.
pub mod Bounds
pub mod Encoding
pub mod Manifest
pub mod Overflow
pub mod Paths
pub mod SafePaths
pub mod RoundTrip
pub mod Termination
use filelist_streaming_servi.Base.{
  ℕ, zero, suc, ◌+◌, ◌*◌, ◌-◌, ◌^◌, ◌≡◌, refl, Bool, true, false, ◌&&◌, Option, none, some, List,
  [], ◌∷◌, Result, ok, err, ◌>>=◌, leb, ltb, ◌==◌, if◌then◌else◌, runes_eq, length, codes, ◌||◌,
  ◌%◌, not,
}

abbrev pub Bytes : Type 0
Bytes = List ℕ

-- A `bnode` has one of its three fields set; the zero value is the leaf without bytes.
mutual
  pub data Node : Type 0 where
    leaf : Bytes → Node
    list : Nodes → Node
    dict : Entries → Node

  pub data Nodes : Type 0 where
    no_nodes : Nodes
    node : Node → Nodes → Nodes

  pub data Entries : Type 0 where
    no_entries : Entries
    entry : Bytes → Node → Entries → Entries

-- `value`, `list` and `dict` of a node.
unfoldable pub value_of : Node → Bytes
value_of (leaf value) = value
value_of _ = []

unfoldable pub list_of : Node → Nodes
list_of (list nodes) = nodes
list_of _ = no_nodes

unfoldable pub dict_of : Node → Entries
dict_of (dict entries) = entries
dict_of _ = no_entries

-- `m[key] = value` and the lookup in a Go map.
unfoldable pub set_entry : Bytes → Node → Entries → Entries
unfolding runes_eq
set_entry key value no_entries = entry key value no_entries
set_entry key value (entry k v entries) =
    if runes_eq k key then entry k value entries else entry k v (set_entry key value entries)

unfoldable pub get_entry : Bytes → Entries → Option Node
unfolding runes_eq
get_entry key no_entries = none
get_entry key (entry k v entries) = if runes_eq k key then some v else get_entry key entries

-- `slice_panic` is the runtime's panic of a slice whose end lies before its start.
pub data ReadError : Type 0 where
  invalid_data unterminated_integer unterminated_list unterminated_dictionary : ReadError
  invalid_string invalid_length slice_panic no_fuel : ReadError

pub record At (A : Type 0) : Type 0 where
  pub item : A
  pub pos : ℕ
  pub rest : Bytes

-- The bytes before the first `c`, and those after it.
unfoldable pub cut_at : ℕ → Bytes → Option (Bytes × Bytes)
cut_at c [] = none
cut_at c (b ∷ bytes) = elim (b == c) [
  | true ↦ some ([], bytes)
  | false ↦ elim (cut_at c bytes) [ none ↦ none | some (before, after) ↦ some (b ∷ before, after) ]
]

unfoldable pub first : ℕ → Bytes → Bytes
first zero bytes = []
first (suc n) [] = []
first (suc n) (b ∷ bytes) = b ∷ first n bytes

unfoldable pub beyond : ℕ → Bytes → Bytes
beyond zero bytes = bytes
beyond (suc n) [] = []
beyond (suc n) (b ∷ bytes) = beyond n bytes

-- `strconv.ParseInt(s, 10, 64)` and `strconv.Atoi`: an optional sign, then at least one digit.
unfoldable pub digits_value : ℕ → Bytes → Option ℕ
digits_value n [] = some n
digits_value n (c ∷ s) = elim (leb 48 c && leb c 57) [
  | true ↦ digits_value (n * 10 + (c - 48)) s
  | false ↦ none
]

abbrev pub int_limit : ℕ
int_limit = 2 ^ 63

-- The magnitude where it is in the range, and the sign.
unfoldable pub signed_value : Bool → Bytes → Option (Bool × ℕ)
unfolding digits_value
signed_value negative [] = none
signed_value negative (c ∷ s) = elim (digits_value 0 (c ∷ s)) [
  | none ↦ none
  | some n ↦
      if (if negative then leb n int_limit else ltb n int_limit) then some (negative, n) else none
]

unfoldable pub parse_int : Bytes → Option (Bool × ℕ)
unfolding signed_value
parse_int [] = none
parse_int (c ∷ s) =
    if c == 43
    then signed_value false s
    else if c == 45
    then signed_value true s
    else signed_value false (c ∷ s)

-- `err != nil || value < 0`; `-0` is zero.
unfoldable pub parse_natural : Bytes → Option ℕ
unfolding parse_int
parse_natural s = elim (parse_int s) [
  | none ↦ none
  | some (negative, n) ↦ if negative && ltb 0 n then none else some n
]

unfoldable pub read_integer : ℕ → Bytes → Result ReadError (At Node)
unfolding cut_at
read_integer pos rest = elim (cut_at 101 rest) [
  | none ↦ err unterminated_integer
  | some (value, after) ↦
      ok (record { item = leaf value; pos = pos + 1 + length value + 1; rest = after })
]

-- The bits of a negative `int`.
unfoldable pub is_minus : ℕ → Bool
is_minus bits = leb int_limit bits

-- `end > len(data)` of an `int`, as bits, and a length.
unfoldable pub exceeds : ℕ → ℕ → Bool
unfolding is_minus
exceeds bits len = not (is_minus bits) && ltb len bits

-- `data[start:end]` for a start within `data`, of which `after` is the part from `start` on: a run-time
-- panic where the end is before the start or beyond `data`, compared without signs.
unfoldable pub slice : ℕ → ℕ → Bytes → Result ReadError Bytes
unfolding first
slice start end after =
    if ltb end start || ltb (start + length after) end
    then err slice_panic
    else ok (first (end - start) after)

-- The length test and the slice: the sum `colon + 1 + length` is an `int`, which wraps. `start` is
-- `colon + 1` and `after` is `data[start:]`.
unfoldable pub slice_text : ℕ → ℕ → Bytes → Result ReadError (At Node)
unfolding exceeds slice beyond
slice_text length_read start after =
    let end = (start + length_read) % 2 ^ 64 in
    if exceeds end (start + length after)
    then err invalid_length
    else slice start end after >>= λ text.
        ok (record { item = leaf text; pos = end; rest = beyond (end - start) after })

unfoldable pub read_text : ℕ → Bytes → Result ReadError (At Node)
unfolding cut_at parse_natural slice_text
read_text pos bytes = elim (cut_at 58 bytes) [
  | none ↦ err invalid_string
  | some (digits, after) ↦ elim (parse_natural digits) [
    | none ↦ err invalid_length
    | some n ↦ slice_text n (pos + length digits + 1) after
  ]
]

-- `readBNode(data, pos)`; the loops of its list and dictionary cases are `read_items` and
-- `read_pairs`.
unfoldable mutual
  unfolding read_integer read_text set_entry value_of

  pub read_node : ℕ → ℕ → Bytes → Result ReadError (At Node)
  read_node zero pos bytes = err no_fuel
  read_node (suc fuel) pos [] = err invalid_data
  read_node (suc fuel) pos (c ∷ bytes) = elim (c == 105) [
    | true ↦ read_integer pos bytes
    | false ↦ elim (c == 108) [
      | true ↦ read_items fuel (pos + 1) bytes >>= λ r.
          ok (record { item = list r.item; pos = r.pos; rest = r.rest })
      | false ↦ elim (c == 100) [
        | true ↦ read_pairs fuel (pos + 1) bytes no_entries >>= λ r.
            ok (record { item = dict r.item; pos = r.pos; rest = r.rest })
        | false ↦ read_text pos (c ∷ bytes)
      ]
    ]
  ]

  pub read_items : ℕ → ℕ → Bytes → Result ReadError (At Nodes)
  read_items zero pos bytes = err no_fuel
  read_items (suc fuel) pos [] = err unterminated_list
  read_items (suc fuel) pos (c ∷ bytes) = elim (c == 101) [
    | true ↦ ok (record { item = no_nodes; pos = pos + 1; rest = bytes })
    | false ↦ read_node fuel pos (c ∷ bytes) >>= λ child.
        read_items fuel child.pos child.rest >>= λ r.
        ok (record { item = node child.item r.item; pos = r.pos; rest = r.rest })
  ]

  pub read_pairs : ℕ → ℕ → Bytes → Entries → Result ReadError (At Entries)
  read_pairs zero pos bytes seen = err no_fuel
  read_pairs (suc fuel) pos [] seen = err unterminated_dictionary
  read_pairs (suc fuel) pos (c ∷ bytes) seen = elim (c == 101) [
    | true ↦ ok (record { item = seen; pos = pos + 1; rest = bytes })
    | false ↦ read_node fuel pos (c ∷ bytes) >>= λ key. read_node fuel key.pos key.rest >>= λ value.
        read_pairs fuel value.pos value.rest (set_entry (value_of key.item) value.item seen)
  ]

-- `readBNode(data, 0)`.
unfoldable pub read_root : Bytes → Result ReadError (At Node)
unfolding read_node
read_root bytes = read_node (length bytes * 2 + 1) 0 bytes

unfoldable pub bint : Node → Option ℕ
unfolding parse_natural value_of
bint number = parse_natural (value_of number)
