-- ===== src/Tests/Accounts.antt =====
-- An object with a number and an encrypted name, for the runs.
use contract.Prelude.{
  ℕ, ◌≡◌, refl, arith, true, false, none, some, List, [], ◌∷◌, length, replicate, to_bytes,
}
use contract.Error.{FieldKind, fresh}
use contract.Binary.Codes.{WriteErrorCode, ReadErrorCode}
use contract.Binary.Writer.{WriteError}
use contract.Binary.Reader.{ReadError}
use contract.Binary.Cipher.{Key, scramble}
use contract.Binary.Codec.Scalar.{scalar, scalar-IsCodec, encode_scalar, FitsScalar}
use contract.Binary.Codec.Text.{string, string-IsCodec, encode_text, FitsText}
use contract.Binary.Codec.Laws.{IsCodec}
use contract.Binary.Object.{Field, object}
use contract.Binary.Object.Fields.{LawfulField}
use contract.Binary.Object.Laws.{fields, encode_object, FieldsFit, object-IsCodec}
use contract.Binary.Object.Operators.{
  writer_over, reader_over, shift_out, shift_in, stored_bytes, sent-received, Received,
}
use contract.Binary.Stream.{Source}

pub record Account : Type 0 where
  pub id : ℕ
  pub name : List ℕ

abbrev pub test_key : Key
test_key = record {
  k0 = 0x13;
  k1 = 0x57;
  k2 = 0x9B;
  k3 = 0xDF;
  bytes = (omega arith, omega arith, omega arith, omega arith);
}

abbrev pub id_field : Field Account
id_field = record {
  descriptor = record {
    info = record {
      name = "id";
      id = 1;
      kind = FieldKind.member;
      is_base_import = false;
      base_offset = 0;
    };
    max_length = none;
    max_bytes = none;
    max_items = none;
    encrypt = false;
  };
  Value = ℕ;
  get = λ a. a.id;
  set = λ v a. record { id = v; name = a.name };
  direct = true;
  codec = scalar 4;
}

abbrev pub name_field : Field Account
name_field = record {
  descriptor = record {
    info = record {
      name = "name";
      id = 2;
      kind = FieldKind.property;
      is_base_import = false;
      base_offset = 0;
    };
    max_length = some 8;
    max_bytes = none;
    max_items = some 2;
    encrypt = true;
  };
  Value = List ℕ;
  get = λ a. a.name;
  set = λ v a. record { id = a.id; name = v };
  direct = false;
  codec = string;
}

abbrev pub account_fields : List (LawfulField Account)
account_fields =
    record {
      field = id_field;
      encode = encode_scalar 4;
      Fits = FitsScalar 4;
      law = scalar-IsCodec 4;
    }
    ∷ record { field = name_field; encode = encode_text; Fits = FitsText; law = string-IsCodec }
    ∷ []

abbrev pub account : Account
account = record { id = 70000; name = 97 ∷ 98 ∷ [] }

abbrev pub blank : Account
blank = record { id = 0; name = [] }

pub account-FieldsFit : FieldsFit account_fields account
account-FieldsFit = (
  omega arith,
  (
    record {
      bytes = (omega arith, (omega arith, tt));
      size = omega arith;
      max_length = omega arith;
      max_bytes = tt;
    },
    tt,
  ),
)

account_size : length (encode_object account_fields test_key false account) ≡ 14
unfolding to_bytes scramble
account_size = refl

-- What earlier operations have left.
abbrev earlier_write : WriteError
earlier_write = fresh WriteErrorCode.invalid_size

abbrev earlier_read : ReadError
earlier_read = fresh ReadErrorCode.duplicate_key

sent-received_example :
    let (w, thrown) =
      shift_out
        (object (fields account_fields) blank)
        account
        (record (writer_over (replicate 20 0) test_key) { failure = some earlier_write }) in
    (thrown ≡ none)
    × (w.failure ≡ none)
    × (stored_bytes w.out ≡ encode_object account_fields test_key false account)
    × (shift_in
          (object (fields account_fields) blank)
          blank
          (record (reader_over (stored_bytes w.out) test_key) { failure = some earlier_read })
        ≡ (
          record (reader_over (stored_bytes w.out) test_key) {
            input = Source.checked (record { consumed = length (stored_bytes w.out); rest = [] });
            failure = none;
          },
          Received.value account,
        ))
sent-received_example =
    sent-received account_fields blank (λ o p. refl) account blank (replicate 20 0) test_key
      (some earlier_write) (some earlier_read) account-FieldsFit (omega (arith, account_size))

object-IsCodec_example :
    IsCodec
      (object (fields account_fields) blank)
      (encode_object account_fields)
      (λ d a. FieldsFit account_fields a)
object-IsCodec_example = object-IsCodec account_fields blank (λ o p. refl)
