-- ===== src/Protobuf/RoundTrip.antt =====
-- What the writer of protobuf.hpp stores in a window, and that its reader finds it again.
use contract.Prelude.{
  ℕ, zero, suc, ◌+◌, ◌-◌, ◌≤◌, ◌<◌, ◌≡◌, refl, ap, ap₂, ◌∙◌, false, Bool-cases, inl, inr, none,
  some, List, [], ◌∷◌, ◌++◌, arith, ltb, ◌==◌, length, length-append, take, take_all, drop_all,
  drop-length, word, suc-==-zero,
}
use contract.Io.Window.{WindowOutput, peek, consume, prepare, fill, commit}
use contract.Io.Window.Laws.{peek-eq-take, consume-eq-drop}
use contract.Io.Window.Stored.{stored, prepare-fits, commit-fill, input_of, take-append_le}
use contract.Protobuf.Varint.{
  varint_bytes, scan_varint, scan_varint-varint_bytes, length-varint_bytes,
}
use contract.Protobuf.Writer.{
  Writer, ok, window, store_window, write_windows, windows_written, write_bytes,
  write_varint_payload,
}
use contract.Protobuf.Reader.{Reader, done, read_varint, scanned}

store_window-all :
    (o : WindowOutput) (bytes : List ℕ)
    → 0 < length bytes
    → store_window o bytes (length bytes) ≡ stored o bytes
unfolding store_window
store_window-all o bytes pos =
    ap (λ t. commit (fill o t) (length bytes)) (take_all (length bytes) bytes refl)
    ∙ commit-fill o bytes pos

-- One window is enough where there is room.
write_windows-fits :
    (fuel size : ℕ) (o : WindowOutput) (bytes : List ℕ)
    → 0 < length bytes
    → length bytes ≤ length o.free
    → write_windows (suc fuel) size o bytes ≡ (stored o bytes, none)
unfolding write_windows
write_windows-fits fuel size o [] pos fits = absurd (omega arith)
write_windows-fits fuel size o (b ∷ bytes) pos fits =
    let n = length (b ∷ bytes) in
    rw
      (
        prepare-fits o n pos fits,
        suc-==-zero,
        drop_all (length bytes) bytes refl,
        store_window-all o (b ∷ bytes) pos,
      )
      (no_more fuel size (stored o (b ∷ bytes)))
  where
    no_more : (fuel size : ℕ) (o : WindowOutput) → write_windows fuel size o [] ≡ (o, none)
    no_more zero size o = refl
    no_more (suc fuel) size o = refl

pub write_bytes-fits :
    (bytes : List ℕ) (o : WindowOutput) (w : Writer)
    → 0 < length bytes
    → length bytes ≤ length o.free
    → write_bytes bytes (record w { out = window o })
      ≡ (record w { out = window (stored o bytes) }, ok)
unfolding write_bytes
write_bytes-fits [] o w pos fits = absurd (omega arith)
write_bytes-fits (b ∷ bytes) o w pos fits = rw suc-==-zero (
    ap (windows_written (length (b ∷ bytes)) (record w { out = window o }))
      (write_windows-fits (length bytes) (length (b ∷ bytes)) o (b ∷ bytes) pos fits)
    ∙ (unfold windows_written in refl))

-- Where the window has room for the varint of a 64-bit number, the two paths of the writer agree: whether
-- 10 bytes are free, so that it is encoded in place, or fewer, so that it goes through a buffer, it
-- is stored behind what was written, and nothing else changes.
pub write_varint_payload-stored :
    (v : ℕ) (o : WindowOutput) (w : Writer)
    → length (varint_bytes 10 v) ≤ length o.free
    → write_varint_payload v (record w { out = window o })
      ≡ (record w { out = window (stored o (varint_bytes 10 v)) }, ok)
unfolding write_varint_payload
write_varint_payload-stored v o w fits = elim (Bool-cases (ltb (prepare o 10) 10)) [
  | inl tight ↦ rw tight (write_bytes-fits (varint_bytes 10 v) o w (length-varint_bytes 9 v).0 fits)
  | inr roomy ↦ rw roomy (
      ap (λ t. (record w { out = window t }, ok))
        (commit-fill o (varint_bytes 10 v) (length-varint_bytes 9 v).0))
]

peek-varint :
    (v consumed : ℕ) (more : List ℕ)
    → peek (input_of consumed (varint_bytes 10 v ++ more)) 10
      ≡ varint_bytes 10 v ++ take (10 - length (varint_bytes 10 v)) more
peek-varint v consumed more =
    peek-eq-take (input_of consumed (varint_bytes 10 v ++ more)) 10
    ∙ take-append_le 10 (varint_bytes 10 v) more (length-varint_bytes 10 v).1

consume-varint :
    (v consumed : ℕ) (more : List ℕ)
    → consume (input_of consumed (varint_bytes 10 v ++ more)) (length (varint_bytes 10 v))
      ≡ input_of (consumed + length (varint_bytes 10 v)) more
consume-varint v consumed more =
    consume-eq-drop (input_of consumed (varint_bytes 10 v ++ more)) (length (varint_bytes 10 v))
    ∙ ap (input_of (consumed + length (varint_bytes 10 v)))
        (drop-length (length (varint_bytes 10 v)) (varint_bytes 10 v) more refl)

-- Where a varint stands ahead, `read_varint` takes just its bytes and gives the number.
pub read_varint-finds :
    (v consumed : ℕ) (more : List ℕ) (r : Reader)
    → v < word
    → read_varint (record r { input = input_of consumed (varint_bytes 10 v ++ more) })
      ≡ (record r { input = input_of (consumed + length (varint_bytes 10 v)) more }, done v)
unfolding read_varint
read_varint-finds v consumed more r h =
    let bytes = varint_bytes 10 v in
    let seen = take (10 - length bytes) more in
    let some_left : (length (bytes ++ seen) == 0) ≡ false =
      ground (arith, length-append bytes seen, (length-varint_bytes 9 v).0) in
    let found : scan_varint (bytes ++ seen) 0 0 0 ≡ some (v, length bytes) =
      scan_varint-varint_bytes 9 v 0 0 0 seen (omega arith) (omega arith) (omega arith)
      ∙ ap₂ (λ n k. some (n, k)) (omega arith) (omega arith) in
    let r' = record r { input = input_of consumed (bytes ++ more) } in
    rw (peek-varint v consumed more, some_left)
      (ap (scanned (length (bytes ++ seen)) r') found
        ∙ (unfold scanned in
            ap (λ i. (record r { input = i }, done v)) (consume-varint v consumed more)))
