-- ===== src/Wire.antt =====
-- src/types.rs and src/util.rs, and the parsers of nom that they use: numbers on the wire, content
-- types, versions and sequence numbers. A parser returns the input that it leaves and a value.
pub mod Numbers
pub mod Many
use Prim.Native.Nat.{compare, Ordering}
use dimpl.Base.{
  ℕ, zero, suc, ◌+◌, ◌*◌, ◌/◌, ◌%◌, ◌^◌, Bool, true, false, not, ◌||◌, List, [], ◌∷◌, ltb, leb,
  ◌==◌, if◌then◌else◌, Result, ok, err, ◌>>=◌, Bytes, length, take, drop,
}
use mathlib.Core.List.{foldl}

-- `nom::error::ErrorKind`, the kinds that the sources raise
pub data ErrorKind : Type 0 where
  eof tag length_value many0 many1 verify fail : ErrorKind

-- `nom::Err`: a recoverable error, or a failure.
pub data Err : Type 0 where
  error : ErrorKind → Err
  failure : ErrorKind → Err

abbrev pub IResult {ℓ} : Type ℓ → Type ℓ
IResult A = Result Err (Bytes × A)

unfoldable pub be_u8 : Bytes → IResult ℕ
be_u8 [] = err (error eof)
be_u8 (a ∷ input) = ok (input, a)

unfoldable pub be_u16 : Bytes → IResult ℕ
be_u16 (a ∷ b ∷ input) = ok (input, a * 256 + b)
be_u16 _ = err (error eof)

unfoldable pub be_u24 : Bytes → IResult ℕ
be_u24 (a ∷ b ∷ c ∷ input) = ok (input, (a * 256 + b) * 256 + c)
be_u24 _ = err (error eof)

-- `res = (res << 8) + byte`, on a u64
abbrev shift_in : ℕ → ℕ → ℕ
shift_in res byte = (res * 2 ^ 8 % 2 ^ 64 + byte) % 2 ^ 64

unfoldable pub be_u48 : Bytes → IResult ℕ
be_u48 input =
    if ltb (length input) 6
    then err (error eof)
    else ok (drop 6 input, foldl shift_in 0 (take 6 input))

-- `nom::bytes::complete::take`
unfoldable pub take_bytes : ℕ → Bytes → IResult Bytes
take_bytes n input =
    if ltb (length input) n then err (error eof) else ok (drop n input, take n input)

-- `to_be_bytes` of a u16; of a u32 without its first byte; of a u64 without its first two, and whole.
abbrev pub u16_bytes : ℕ → Bytes
u16_bytes n = n / 256 % 256 ∷ n % 256 ∷ []

abbrev pub u24_bytes : ℕ → Bytes
u24_bytes n = n / 65536 % 256 ∷ n / 256 % 256 ∷ n % 256 ∷ []

abbrev pub u48_bytes : ℕ → Bytes
u48_bytes n =
    n / 2 ^ 40 % 256
    ∷ n / 2 ^ 32 % 256
    ∷ n / 2 ^ 24 % 256
    ∷ n / 2 ^ 16 % 256
    ∷ n / 2 ^ 8 % 256
    ∷ n % 256
    ∷ []

abbrev pub u64_bytes : ℕ → Bytes
u64_bytes n = n / 2 ^ 56 % 256 ∷ n / 2 ^ 48 % 256 ∷ u48_bytes n

-- `u64::from_be_bytes`
abbrev pub u64_of_bytes : Bytes → ℕ
u64_of_bytes bytes = foldl (λ n b. n * 256 + b) 0 bytes

-- `ContentType` and `ProtocolVersion` wrap a number, known or not.
abbrev pub ContentType : Type 0
ContentType = ℕ

abbrev pub change_cipher_spec : ContentType
change_cipher_spec = 20

abbrev pub alert : ContentType
alert = 21

abbrev pub handshake : ContentType
handshake = 22

abbrev pub application_data : ContentType
application_data = 23

abbrev pub ack : ContentType
ack = 26

unfoldable pub parse_content_type : Bytes → IResult ContentType
unfolding be_u8
parse_content_type input = do (input, byte) ← be_u8 input; ok (input, byte)

abbrev pub ProtocolVersion : Type 0
ProtocolVersion = ℕ

abbrev pub dtls1_0 : ProtocolVersion
dtls1_0 = 0xfeff

abbrev pub dtls1_2 : ProtocolVersion
dtls1_2 = 0xfefd

abbrev pub dtls1_3 : ProtocolVersion
dtls1_3 = 0xfefc

unfoldable pub parse_version : Bytes → IResult ProtocolVersion
parse_version input = do (input, version) ← be_u16 input; ok (input, version)

pub record Sequence : Type 0 where
  pub epoch : ℕ
  pub sequence_number : ℕ

-- `Sequence::new`
abbrev pub sequence_new : ℕ → Sequence
sequence_new epoch = record { epoch = epoch; sequence_number = 0 }

-- `impl Ord for Sequence`
unfoldable pub cmp : Sequence → Sequence → Ordering
cmp a b =
    if ltb a.epoch b.epoch
    then Ordering.lt
    else if ltb b.epoch a.epoch
    then Ordering.gt
    else compare a.sequence_number b.sequence_number

-- `a > b`
unfoldable pub is_after : Sequence → Sequence → Bool
unfolding cmp
is_after a b = elim (cmp a b) [ Ordering.gt ↦ true | _ ↦ false ]
