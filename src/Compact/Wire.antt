-- ===== src/Compact/Wire.antt =====
-- The values that the compact format can carry, and the bytes of each: what the writer of compact.hpp
-- is to store for a value, and its reader and its skip_reader to take.
use contract.Prelude.{
  ℕ, suc, ◌+◌, ◌-◌, ◌^◌, ◌<◌, Bool, List, [], ◌∷◌, ◌++◌, leb, if◌then◌else◌, length, to_bytes,
}
use contract.Compact.Headers.{compact_byte_count}

-- `negative n` is -1 - n; the floating-point numbers are their bits.
mutual
  pub data Value : Type 0 where
    uint negative : ℕ → Value
    boolean : Bool → Value
    null : Value
    float32 float64 : ℕ → Value
    bytes string : List ℕ → Value
    array : Values → Value
    map : Pairs → Value
    object : Members → Value

  pub data Values : Type 0 where
    no_items : Values
    item : Value → Values → Values

  pub data Pairs : Type 0 where
    no_pairs : Pairs
    pair : Value → Value → Pairs → Pairs

  pub data Members : Type 0 where
    no_members : Members
    member : ℕ → Value → Members → Members

abbrev pub count : Values → ℕ
count no_items = 0
count (item v vs) = suc (count vs)

abbrev pub count_pairs : Pairs → ℕ
count_pairs no_pairs = 0
count_pairs (pair k v ps) = suc (count_pairs ps)

abbrev pub count_members : Members → ℕ
count_members no_members = 0
count_members (member id v ms) = suc (count_members ms)

-- A header that says how many bytes follow, and those bytes, the lowest first.
unfoldable pub encode_payload : ℕ → ℕ → List ℕ
encode_payload base magnitude =
    let n = compact_byte_count magnitude in (base + (n - 1)) ∷ to_bytes n magnitude

unfoldable pub encode_uint : ℕ → List ℕ
unfolding encode_payload
encode_uint n = if leb n 63 then n ∷ [] else encode_payload 0x50 n

unfoldable pub encode_negative : ℕ → List ℕ
unfolding encode_payload
encode_negative n = if leb n 15 then (0x40 + n) ∷ [] else encode_payload 0x58 (n + 1)

-- A size of at most 14 stands in the header.
unfoldable pub encode_size : ℕ → ℕ → List ℕ
unfolding encode_uint
encode_size base size = if leb size 14 then (base + size) ∷ [] else ((base + 15) ∷ encode_uint size)

unfoldable mutual
  pub encode : Value → List ℕ
  encode (uint n) = encode_uint n
  encode (negative n) = encode_negative n
  encode (boolean b) = (if b then 0xb1 else 0xb0) ∷ []
  encode null = 0xb2 ∷ []
  encode (float32 bits) = 0xc4 ∷ to_bytes 4 bits
  encode (float64 bits) = 0xc8 ∷ to_bytes 8 bits
  encode (bytes bs) = encode_size 0x60 (length bs) ++ bs
  encode (string bs) = encode_size 0x70 (length bs) ++ bs
  encode (array vs) = encode_size 0x80 (count vs) ++ encode_values vs
  encode (map ps) = encode_size 0x90 (count_pairs ps) ++ encode_pairs ps
  encode (object ms) = encode_size 0xa0 (count_members ms) ++ encode_members ms

  pub encode_values : Values → List ℕ
  encode_values no_items = []
  encode_values (item v vs) = encode v ++ encode_values vs

  pub encode_pairs : Pairs → List ℕ
  encode_pairs no_pairs = []
  encode_pairs (pair k v ps) = encode k ++ (encode v ++ encode_pairs ps)

  pub encode_members : Members → List ℕ
  encode_members no_members = []
  encode_members (member id v ms) = encode_uint id ++ (encode v ++ encode_members ms)

-- The values with numbers that have the bits for them, and sizes that fit 64 bits. A negative number
-- is at least -2 ^ 63.
unfoldable mutual
  pub IsValue : Value → Type 0
  IsValue (uint n) = n < 2 ^ 64
  IsValue (negative n) = n < 2 ^ 63
  IsValue (boolean b) = Unit {0}
  IsValue null = Unit {0}
  IsValue (float32 bits) = bits < 2 ^ 32
  IsValue (float64 bits) = bits < 2 ^ 64
  IsValue (bytes bs) = length bs < 2 ^ 64
  IsValue (string bs) = length bs < 2 ^ 64
  IsValue (array vs) = (count vs < 2 ^ 64) × AreValues vs
  IsValue (map ps) = (count_pairs ps < 2 ^ 64) × ArePairs ps
  IsValue (object ms) = (count_members ms < 2 ^ 64) × AreMembers ms

  pub AreValues : Values → Type 0
  AreValues no_items = Unit {0}
  AreValues (item v vs) = IsValue v × AreValues vs

  pub ArePairs : Pairs → Type 0
  ArePairs no_pairs = Unit {0}
  ArePairs (pair k v ps) = IsValue k × (IsValue v × ArePairs ps)

  pub AreMembers : Members → Type 0
  AreMembers no_members = Unit {0}
  AreMembers (member id v ms) = (id < 2 ^ 64) × (IsValue v × AreMembers ms)
