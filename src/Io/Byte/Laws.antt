-- ===== src/Io/Byte/Laws.antt =====
-- What the checked cursors of io/byte.hpp promise.
use contract.Prelude.{
  ℕ, ◌+◌, ◌≡◌, refl, ◌∙◌, some, List, [], ◌∷◌, arith, length, take_all, length-append, length-drop,
}
use contract.Io.Byte.{CheckedOutput, checked_write}

pub capacity : CheckedOutput → ℕ
capacity o = length o.written + length o.free

-- The bytes that a run of writes asks to store, and what they leave.
pub write_all : CheckedOutput → List (List ℕ) → CheckedOutput
write_all o [] = o
write_all o (bytes ∷ rest) = write_all (checked_write o (some bytes) (length bytes)).0 rest

write_total :
    (o : CheckedOutput) (bytes : List ℕ)
    → capacity (checked_write o (some bytes) (length bytes)).0 ≡ capacity o
unfolding checked_write capacity
write_total o bytes = ground (
  arith,
  take_all (length bytes) bytes refl,
  length-append o.written bytes,
  length-drop (length bytes) o.free,
)

-- Whatever is written to a checked output, and whether it fits or not, the bytes written and the
-- bytes still free are together as many as at first: no write passes the end of the range.
pub write_all-capacity :
    (writes : List (List ℕ)) (o : CheckedOutput) → capacity (write_all o writes) ≡ capacity o
unfolding write_all
write_all-capacity [] o = refl
write_all-capacity (bytes ∷ rest) o =
    write_all-capacity rest (checked_write o (some bytes) (length bytes)).0 ∙ write_total o bytes
