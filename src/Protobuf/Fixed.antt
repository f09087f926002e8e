-- ===== src/Protobuf/Fixed.antt =====
-- Fixed-size values of protobuf.hpp, from a writer over free memory to a reader over what it stored.
use contract.Prelude.{
  ℕ, zero, suc, ◌/◌, ◌^◌, ◌≤◌, ◌<◌, ◌≡◌, refl, ap, ap₂, ◌∙◌, List, [], ◌∷◌, ◌++◌, arith, ==_refl,
  suc-==-zero, length, take-length, drop-length, to_bytes, of_bytes, length-to_bytes,
  of_bytes-to_bytes, bit_and_mask,
}
use contract.Io.Window.{peek, consume}
use contract.Io.Window.Laws.{peek-eq-take, consume-eq-drop}
use contract.Protobuf.Writer.{ok, window, low_bytes, write_bytes, write_fixed32, write_fixed64}
use contract.Protobuf.Reader.{
  done, next_read, pure, read_view, view_whole, read_fixed32, read_fixed64,
}
use contract.Io.Window.Stored.{stored, input_of}
use contract.Protobuf.RoundTrip.{write_bytes-fits}
use contract.Protobuf.Sent.{writer_over, reader_over, target_bytes}

-- The bytes that the shifts and masks pick are those of the number in memory, the lowest first.
pub low_bytes-eq-to_bytes : (n v : ℕ) → low_bytes n v ≡ to_bytes n v
unfolding low_bytes to_bytes
low_bytes-eq-to_bytes zero v = refl
low_bytes-eq-to_bytes (suc n) v = ap₂ ◌∷◌ (bit_and_mask 8 v) (low_bytes-eq-to_bytes n (v / 256))

bytes-stored :
    (n v : ℕ) (free : List ℕ)
    → suc n ≤ length free
    → write_bytes (low_bytes (suc n) v) (writer_over free) ≡ (
      record (writer_over free) {
        out = window (stored (record { written = []; free = free }) (to_bytes (suc n) v));
      },
      ok,
    )
unfolding writer_over
bytes-stored n v free room =
    let size = length-to_bytes (suc n) v in
    rw low_bytes-eq-to_bytes (
      write_bytes-fits (to_bytes (suc n) v) (record { written = []; free = free })
        (writer_over free) (omega arith) (omega arith))

view-found :
    (n : ℕ) (bytes more : List ℕ)
    → length bytes ≡ suc n
    → read_view (suc n) (reader_over (bytes ++ more))
      ≡ (record (reader_over (bytes ++ more)) { input = input_of (suc n) more }, done bytes)
unfolding read_view reader_over
view-found n bytes more size =
    let r = reader_over (bytes ++ more) in
    let seen : peek (input_of 0 (bytes ++ more)) (suc n) ≡ bytes =
      peek-eq-take (input_of 0 (bytes ++ more)) (suc n) ∙ take-length (suc n) bytes more size in
    let past : consume (input_of 0 (bytes ++ more)) (suc n) ≡ input_of (suc n) more =
      consume-eq-drop (input_of 0 (bytes ++ more)) (suc n)
      ∙ ap₂ input_of (omega arith) (drop-length (suc n) bytes more size) in
    rw (suc-==-zero, seen)
      (unfold view_whole in
        rw (size, ==_refl) (ap (λ i. (record r { input = i }, done bytes)) past))

-- A number of 32 bits, and one of 64, that is written with its fixed size to a window with that many
-- bytes free is stored without an error, and a reader over the bytes stored, whatever follows them,
-- gives it back and has taken just those bytes.
pub fixed-sent_received :
    (v u : ℕ) (free more : List ℕ)
    → v < 2 ^ 32
    → u < 2 ^ 64
    → 8 ≤ length free
    → let (w, status) = write_fixed32 v (writer_over free) in
      let (w', status') = write_fixed64 u (writer_over free) in
      (status ≡ ok)
      × (status' ≡ ok)
      × (read_fixed32 (reader_over (target_bytes w.out ++ more))
          ≡ (record (reader_over (target_bytes w.out ++ more)) { input = input_of 4 more }, done v))
      × (read_fixed64 (reader_over (target_bytes w'.out ++ more)) ≡ (
        record (reader_over (target_bytes w'.out ++ more)) { input = input_of 8 more },
        done u,
      ))
unfolding write_fixed32 write_fixed64 read_fixed32 read_fixed64
fixed-sent_received v u free more hv hu room =
    rw (bytes-stored 3 v free (omega arith), bytes-stored 7 u free (omega arith))
      (refl, refl, found 3 v hv, found 7 u hu)
  where
    found :
        (n x : ℕ)
        → x < 256 ^ suc n
        → next_read
            (λ bytes. pure (of_bytes bytes))
            (read_view (suc n) (reader_over (to_bytes (suc n) x ++ more)))
          ≡ (
            record (reader_over (to_bytes (suc n) x ++ more)) { input = input_of (suc n) more },
            done x,
          )
    found n x h =
        let bytes = to_bytes (suc n) x in
        ap (next_read (λ bytes. pure (of_bytes bytes)))
          (view-found n bytes more (length-to_bytes (suc n) x))
        ∙ ap (λ t. (record (reader_over (bytes ++ more)) { input = input_of (suc n) more }, done t))
            (of_bytes-to_bytes (suc n) x h)
