-- ===== src/Compact/Headers.antt =====
-- The header bytes of compact.hpp and the number of bytes that an integer takes behind its header.
use contract.Prelude.{ℕ, zero, suc, ◌+◌, ◌/◌, ◌%◌, Bool, false, leb, ◌==◌, ◌&&◌, if◌then◌else◌}
use contract.Compact.Codes.{ValueKind}

abbrev pub small_uint_max : ℕ
small_uint_max = 0x3f

abbrev pub small_neg_min : ℕ
small_neg_min = 0x40

abbrev pub small_neg_max : ℕ
small_neg_max = 0x4f

abbrev pub int_payload_min : ℕ
int_payload_min = 0x50

abbrev pub int_payload_max : ℕ
int_payload_max = 0x5f

abbrev pub int_payload_sign : ℕ
int_payload_sign = 0x08

abbrev pub sized_inline_max : ℕ
sized_inline_max = 14

abbrev pub sized_extended : ℕ
sized_extended = 15

abbrev pub bool_false_header : ℕ
bool_false_header = 0xb0

abbrev pub bool_true_header : ℕ
bool_true_header = 0xb1

abbrev pub null_header : ℕ
null_header = 0xb2

abbrev pub float32_header : ℕ
float32_header = 0xc4

abbrev pub float64_header : ℕ
float64_header = 0xc8

unfoldable pub is_in_range : ℕ → ℕ → ℕ → Bool
is_in_range value first last = leb first value && leb value last

unfoldable pub size_base : ValueKind → ℕ
size_base ValueKind.bytes = 0x60
size_base ValueKind.string = 0x70
size_base ValueKind.array = 0x80
size_base ValueKind.map = 0x90
size_base ValueKind.object = 0xa0
size_base _ = 0

-- `static_cast<unsigned char>(base + sized_extended)`
unfoldable pub is_sized_header : ℕ → ValueKind → Bool
unfolding is_in_range size_base
is_sized_header header kind =
    let base = size_base kind in
    if base == 0 then false else is_in_range header base ((base + sized_extended) % 256)

-- bytes = 1; while ((value >>= 8u) != 0) { ++bytes; }: a std::uint64_t is 0 after 8 rounds at most.
unfoldable pub count_bytes : ℕ → ℕ → ℕ
count_bytes zero value = 1
count_bytes (suc fuel) value =
    let rest = count_bytes fuel (value / 256) in if value / 256 == 0 then 1 else suc rest

unfoldable pub compact_byte_count : ℕ → ℕ
compact_byte_count value = count_bytes 8 value
