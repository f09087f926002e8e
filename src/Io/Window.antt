-- ===== src/Io/Window.antt =====
-- include/contract/io/byte_window.hpp: `window_input` and `window_output`, which lend a window of
-- the bytes ahead and move over what the client is done with. `begin_`, `current_` and `end_` split
-- the range: what lies before `current_` and what lies from there on. The asserts on `size` are the
-- caller's duty: to move past `end_` is undefined.
pub mod Laws
pub mod Stored
use contract.Prelude.{
  ℕ, ◌+◌, Bool, List, [], ◌++◌, ltb, ◌==◌, if◌then◌else◌, ◌||◌, length, take, drop,
}

-- `consumed` is `current_ - begin_`, and `rest` what stands from `current_` to `end_`.
pub record WindowInput : Type 0 where
  pub consumed : ℕ
  pub rest : List ℕ

-- `written` stands from `begin_` to `current_`, `free` from there to `end_`.
pub record WindowOutput : Type 0 where
  pub written : List ℕ
  pub free : List ℕ

-- const std::size_t count = max_size < available ? max_size : available;
unfoldable pub window_size : ℕ → ℕ → ℕ
window_size max_size available = if ltb max_size available then max_size else available

unfoldable pub peek : WindowInput → ℕ → List ℕ
unfolding window_size
peek i max_size =
    if max_size == 0 || length i.rest == 0
    then []
    else take (window_size max_size (length i.rest)) i.rest

unfoldable pub consume : WindowInput → ℕ → WindowInput
consume i size =
    if size == 0 then i else record { consumed = i.consumed + size; rest = drop size i.rest }

unfoldable pub input_position : WindowInput → ℕ
input_position i = i.consumed

-- The window that the client may overwrite, by its size: it starts at `current_`.
unfoldable pub prepare : WindowOutput → ℕ → ℕ
unfolding window_size
prepare o max_size =
    if max_size == 0 || length o.free == 0 then 0 else window_size max_size (length o.free)

-- What the client stores at the front of a window that it was lent.
unfoldable pub fill : WindowOutput → List ℕ → WindowOutput
fill o bytes = record { written = o.written; free = bytes ++ drop (length bytes) o.free }

unfoldable pub commit : WindowOutput → ℕ → WindowOutput
commit o size =
    if size == 0
    then o
    else record { written = o.written ++ take size o.free; free = drop size o.free }

unfoldable pub output_position : WindowOutput → ℕ
output_position o = length o.written
