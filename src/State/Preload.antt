-- ===== src/State/Preload.antt =====
-- `Preload` of state/state.go. The SHA-256 digest in hexadecimal is a parameter.
use Prim.Native.Nat.{bit_xor}
use consensus_arena.Prelude.{
  ℕ, zero, suc, ◌+◌, ◌-◌, ◌*◌, ◌/◌, ◌%◌, ◌^◌, ◌≤◌, min, ◌≡◌, refl, ap, sym, ◌∙◌, List, [], ◌∷◌,
  ◌++◌, none, some, ltb, leb, ◌&&◌, ◌==◌, not, if◌then◌else◌, length, length-append, arith,
}
use consensus_arena.Prelude.Int.{int_eq, ℤ, pos, pos_part, ◌≤ℤ◌, ltb_ℤ, uint64, word_mod}
use consensus_arena.Prelude.Maps.{Map, find}
use consensus_arena.State.{Key, Value, key_comparator}
use consensus_arena.State.Tree.{TreeMap}
use consensus_arena.State.Wire.{le_bytes}

abbrev golden : ℕ
golden = 0x9e3779b97f4a7c15

-- The output function of the generator, on words of 64 bits.
unfoldable pub mix : ℕ → ℕ
mix state =
    let a : ℕ = bit_xor state (state / 2 ^ 30) * 0xbf58476d1ce4e5b9 % word_mod in
    let b : ℕ = bit_xor a (a / 2 ^ 27) * 0x94d049bb133111eb % word_mod in bit_xor b (b / 2 ^ 31)

-- The outer loop of `fillPreloadedValue`: a round fills up to eight of the bytes that are left.
-- A round fills at least one, so a round for each byte is enough.
unfoldable pub fill_loop : ℕ → ℕ → ℕ → Value
fill_loop zero left state = []
fill_loop (suc fuel) left state =
    let state' = (state + golden) % word_mod in
    let rest = fill_loop fuel (left - 8) state' in
    if left == 0 then [] else le_bytes (min 8 left) (mix state') ++ rest

unfoldable pub fill_preloaded_value : ℕ → ℕ → ℕ → Value
fill_preloaded_value size key seed = fill_loop size size (bit_xor seed (key * golden % word_mod))

pub data PreloadError : Type 0 where
  negative_record_count negative_value_size not_empty : PreloadError

pub data PreloadResult (Tree : Type 0) : Type 0 where
  loaded : Tree → List ℕ → PreloadResult Tree
  refused : PreloadError → PreloadResult Tree

length-le_bytes : (n u : ℕ) → length (le_bytes n u) ≡ n
length-le_bytes zero u = refl
length-le_bytes (suc n) u = ap suc (length-le_bytes n (u / 256))

length-fill_loop : (fuel left state : ℕ) → left ≤ fuel → length (fill_loop fuel left state) ≡ left
unfolding fill_loop
length-fill_loop zero left state h = omega arith
length-fill_loop (suc fuel) left state h =
    let state' : ℕ = (state + golden) % word_mod in
    ground (
      arith,
      length-le_bytes (min 8 left) (mix state'),
      length-append (le_bytes (min 8 left) (mix state')) (fill_loop fuel (left - 8) state'),
      length-fill_loop fuel (left - 8) state',
    )

-- The loop fills the whole value.
pub length-fill_preloaded_value :
    (size key seed : ℕ) → length (fill_preloaded_value size key seed) ≡ size
unfolding fill_preloaded_value
length-fill_preloaded_value size key seed = length-fill_loop size size _ (omega arith)

module _ (trees : TreeMap key_comparator) (sha256_hex : List ℕ → List ℕ) where
  open trees use {Tree, empty, insert, get, size, entries, get-insert, get-entries, size-entries}

  -- The loop over the keys, with the bytes given to the digest so far.
  unfoldable pub preload_loop : ℕ → ℕ → ℕ → ℕ → Tree → List ℕ → Tree × List ℕ
  preload_loop zero key value_size seed st digest = (st, digest)
  preload_loop (suc rounds) key value_size seed st digest =
      let value = fill_preloaded_value value_size key seed in
      preload_loop rounds (suc key) value_size seed (insert (pos key) value st)
        (digest ++ le_bytes 8 (uint64 (pos key)) ++ value)

  unfoldable pub preload : ℤ → ℤ → ℕ → Tree → PreloadResult Tree
  preload record_count value_size seed st =
      if ltb_ℤ record_count (pos 0)
      then refused negative_record_count
      else if ltb_ℤ value_size (pos 0)
      then refused negative_value_size
      else if not (size st == 0)
      then refused not_empty
      else let (st', digest) =
          preload_loop (pos_part record_count) 0 (pos_part value_size) seed st [] in
        loaded st' (sha256_hex digest)

  -- What a key holds after the loop.
  get-preload_loop :
      (rounds first value_size seed : ℕ) (st : Tree) (digest : List ℕ) (j : ℕ)
      → get (pos j) (preload_loop rounds first value_size seed st digest).0 ≡ (
          if leb first j && ltb j (first + rounds)
          then some (fill_preloaded_value value_size j seed)
          else get (pos j) st)
  unfolding preload_loop
  get-preload_loop zero first value_size seed st digest j = ground arith
  get-preload_loop (suc rounds) first value_size seed st digest j =
      let value = fill_preloaded_value value_size first seed in
      ground (
        arith,
        get-preload_loop rounds (suc first) value_size seed (insert (pos first) value st)
            (digest ++ le_bytes 8 (uint64 (pos first)) ++ value) j,
        get-insert (pos first) (pos j) value st,
        λ (e : first ≡ j). ap (λ (k : ℕ). some (fill_preloaded_value value_size k seed)) e,
      )

  empty-get : (st : Tree) (k : Key) → size st ≡ 0 → get k st ≡ none
  empty-get st k e = get-entries k st ∙ no_entries (entries st) (sym (size-entries st) ∙ e)
    where
      no_entries : (m : Map Key Value) → length m ≡ 0 → find k m ≡ none
      no_entries [] h = unfold find in refl
      no_entries (x ∷ m) h = absurd (omega arith)

  -- A preload that succeeds started from an empty store with a record count that is not negative.
  -- After it the keys 0..record_count-1 hold their generated values, of value_size bytes each (so
  -- the size is not negative either), and no other key that is not negative holds one.
  pub preload-get :
      (record_count value_size : ℤ) (seed : ℕ) (st st' : Tree) (hex : List ℕ) (j : ℕ)
      → preload record_count value_size seed st ≡ loaded st' hex
      → (size st ≡ 0)
        × (pos 0 ≤ℤ record_count)
        × (get (pos j) st' ≡ (
            if ltb_ℤ (pos j) record_count
            then some (fill_preloaded_value (pos_part value_size) j seed)
            else none))
        × (pos (length (fill_preloaded_value (pos_part value_size) j seed)) ≡ value_size)
  unfolding preload
  preload-get record_count value_size seed st st' hex j h = ground (
    arith,
    get-preload_loop (pos_part record_count) 0 (pos_part value_size) seed st [] j,
    empty-get st (pos j),
    length-fill_preloaded_value (pos_part value_size) j seed,
  )
