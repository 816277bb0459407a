-- ===== src/State/Wire.antt =====
-- `Marshal` and `Unmarshal` of state/state.go. A writer is the bytes written so far; a reader is
-- the bytes that are left, and `io.ReadFull` fails when they run out.
use consensus_arena.Prelude.{
  ℕ, zero, suc, ◌+◌, ◌*◌, ◌/◌, ◌%◌, ◌≤◌, ◌<◌, ◌≡◌, refl, ap, ◌≢◌, List, [], ◌∷◌, ◌++◌, Option, none,
  some, ltb, if◌then◌else◌, length, take, drop, take-append, drop-append, length-take,
  length-append, arith,
}
use consensus_arena.Prelude.Int.{
  ℤ, uint64, int64_of_word, word_mod, IsInt64, int64_of_IsInt64, uint64-lt, int64,
}
use consensus_arena.State.{Operation, Key, Value, Command, le_uint64}

-- io.ReadFull of n bytes.
unfoldable pub read_full : ℕ → List ℕ → Option (List ℕ × List ℕ)
read_full n r = if ltb (length r) n then none else some (take n r, drop n r)

-- Value bytes as a uint16 and a uint64, lowest first.
abbrev pub le_bytes : ℕ → ℕ → List ℕ
le_bytes zero u = []
le_bytes (suc n) u = u % 256 ∷ le_bytes n (u / 256)

unfoldable pub marshal_op : Operation → List ℕ → List ℕ
marshal_op op w = w ++ op % 256 ∷ []

unfoldable pub marshal_key : Key → List ℕ → List ℕ
marshal_key k w = w ++ le_bytes 8 (uint64 k)

-- The length goes into the first two of four bytes, cut to 16 bits. A nil pointer has no bytes.
unfoldable pub marshal_value : Option Value → List ℕ → List ℕ
marshal_value none w = w ++ 0 ∷ 0 ∷ 0 ∷ 0 ∷ []
marshal_value (some v) w = (w ++ le_bytes 2 (length v % 65536) ++ 0 ∷ 0 ∷ []) ++ v

unfoldable pub marshal : Command → List ℕ → List ℕ
unfolding marshal_op marshal_key marshal_value
marshal c w = marshal_value (some c.v) (marshal_key c.k (marshal_op c.op w))

infixl 5 ◌>>=◌
abbrev ◌>>=◌ {ℓ κ} : {A : Type ℓ} {B : Type κ} → Option A → (A → Option B) → Option B
none >>= f = none
some a >>= f = f a

unfoldable pub head_or_zero : List ℕ → ℕ
head_or_zero [] = 0
head_or_zero (b ∷ bs) = b

unfoldable pub unmarshal_op : List ℕ → Option (Operation × List ℕ)
unfolding head_or_zero
unmarshal_op r = do bs ← read_full 1 r; some (head_or_zero bs.0, bs.1)

unfoldable pub unmarshal_key : List ℕ → Option (Key × List ℕ)
unmarshal_key r = do bs ← read_full 8 r; u ← le_uint64 bs.0; some (int64_of_word u, bs.1)

-- binary.LittleEndian.Uint16
unfoldable pub le_uint16 : List ℕ → ℕ
le_uint16 (a ∷ b ∷ rest) = a + 256 * b
le_uint16 _ = 0

unfoldable pub unmarshal_value : List ℕ → Option (Value × List ℕ)
unmarshal_value r = do bs ← read_full 4 r; read_full (le_uint16 bs.0) bs.1

unfoldable pub unmarshal : List ℕ → Option (Command × List ℕ)
unmarshal r = do
  op ← unmarshal_op r
  k ← unmarshal_key op.1
  v ← unmarshal_value k.1
  some (record { op = op.0; k = k.0; v = v.0 }, v.1)

-- The value of n bytes, lowest first.
le_bytes-round : (u : ℕ) → u < word_mod → le_uint64 (le_bytes 8 u) ≡ some u
unfolding le_uint64
le_bytes-round u h = ap some (omega arith)

-- Reading n bytes where they stand in front.
read_full-append : (xs rest : List ℕ) → read_full (length xs) (xs ++ rest) ≡ some (xs, rest)
unfolding read_full
read_full-append xs rest =
    ground (arith, take-append xs rest, drop-append xs rest, length-append xs rest)

unmarshal_op_lem :
    (op : Operation) (rest : List ℕ) → op < 256 → unmarshal_op (op % 256 ∷ rest) ≡ some (op, rest)
unfolding unmarshal_op
unmarshal_op_lem op rest h = ground (arith, read_full-append (op % 256 ∷ []) rest)

unmarshal_key_lem :
    (k : Key) (rest : List ℕ)
    → IsInt64 k
    → unmarshal_key (le_bytes 8 (uint64 k) ++ rest) ≡ some (k, rest)
unfolding unmarshal_key
unmarshal_key_lem k rest h =
    rw (read_full-append (le_bytes 8 (uint64 k)) rest, le_bytes-round (uint64 k) (uint64-lt k))
      (ap (λ (z : Key). some (z, rest)) (int64_of_IsInt64' k h))
  where
    int64_of_IsInt64' : (z : ℤ) → IsInt64 z → int64_of_word (uint64 z) ≡ z
    int64_of_IsInt64' z inside = unfold int64 in int64_of_IsInt64 z inside

-- The four bytes in front of a value.
abbrev length_field : Value → List ℕ
length_field v = le_bytes 2 (length v % 65536) ++ 0 ∷ 0 ∷ []

length_field_lem : (v : Value) → length v < 65536 → le_uint16 (length_field v) ≡ length v
unfolding le_uint16
length_field_lem v h = omega arith

unmarshal_value_lem :
    (v : Value) (rest : List ℕ)
    → length v < 65536
    → unmarshal_value (length_field v ++ (v ++ rest)) ≡ some (v, rest)
unfolding unmarshal_value
unmarshal_value_lem v rest h =
    rw (read_full-append (length_field v) (v ++ rest), length_field_lem v h)
      (read_full-append v rest)

-- Reading what was written gives the command back and leaves what followed it, for an operation
-- of one byte, an int64 key and a value of at most 65535 bytes.
pub unmarshal-marshal :
    (c : Command) (rest : List ℕ)
    → c.op < 256
    → IsInt64 c.k
    → length c.v < 65536
    → unmarshal (marshal c [] ++ rest) ≡ some (c, rest)
unfolding unmarshal marshal
unmarshal-marshal c rest p q h =
    let value_bytes = length_field c.v ++ (c.v ++ rest) in
    rw
      (
        unmarshal_op_lem c.op (le_bytes 8 (uint64 c.k) ++ value_bytes) p,
        unmarshal_key_lem c.k value_bytes q,
        unmarshal_value_lem c.v rest h,
      )
      refl

read_full-length : (n : ℕ) (r xs rest : List ℕ) → read_full n r ≡ some (xs, rest) → length xs ≤ n
unfolding read_full
read_full-length n r xs rest e = ground (arith, length-take n r)

-- A value of 65536 bytes or more does not come back from the wire.
pub unmarshal-marshal_long :
    (v : Value) (rest : List ℕ)
    → 65536 ≤ length v
    → unmarshal_value (marshal_value (some v) [] ++ rest) ≢ some (v, rest)
unfolding unmarshal_value marshal_value
unmarshal-marshal_long v rest h e = omega (
  arith,
  read_full-length (le_uint16 (length_field v)) (v ++ rest) v rest
      (rw (read_full-append (length_field v) (v ++ rest)) at e),
  field_bound,
)
  where
    field_bound : le_uint16 (length_field v) < 65536
    field_bound = unfold le_uint16 in omega arith
