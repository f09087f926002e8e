-- ===== src/Tests/Parts.antt =====
-- The cursors of include/contract/io and the error context of include/contract/detail/error.hpp at
-- concrete values.
use contract.Prelude.{◌+◌, ◌≡◌, List, [], ◌∷◌, ◌++◌, length}
use contract.Error.{AdapterError, fresh}
use contract.Error.Context.{Note}
use contract.Binary.Codes.{ReadErrorCode, ReadStage}
use contract.Io.Byte.{CheckedOutput}
use contract.Io.Byte.Laws.{capacity, write_all, write_all-capacity}
use contract.Io.Window.{WindowInput, input_position}
use contract.Io.Window.Laws.{read_chunks, read_chunks_whole}

abbrev three_free : CheckedOutput
three_free = record { written = []; free = 0 ∷ 0 ∷ 0 ∷ [] }

write_all-capacity_example :
    capacity (write_all three_free ((1 ∷ 2 ∷ []) ∷ (3 ∷ 4 ∷ []) ∷ [])) ≡ capacity three_free
write_all-capacity_example = write_all-capacity ((1 ∷ 2 ∷ []) ∷ (3 ∷ 4 ∷ []) ∷ []) three_free

abbrev five_left : WindowInput
five_left = record { consumed = 2; rest = 3 ∷ 4 ∷ 5 ∷ 6 ∷ 7 ∷ [] }

read_chunks_whole_example :
    let (bytes, i) = read_chunks five_left (2 ∷ 0 ∷ 9 ∷ []) in
    (bytes ++ i.rest ≡ five_left.rest)
    × (input_position i ≡ input_position five_left + length bytes)
read_chunks_whole_example = read_chunks_whole (2 ∷ 0 ∷ 9 ∷ []) five_left

abbrev notes : List (Note ReadStage)
notes =
    Note.stage ReadStage.raw
    ∷ Note.sizes 8 3
    ∷ Note.element 1 4
    ∷ Note.stage ReadStage.container
    ∷ []

abbrev new_error : AdapterError ReadErrorCode ReadStage
new_error = fresh ReadErrorCode.truncated
