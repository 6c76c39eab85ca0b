-- ===== src/Examples/Small.antt =====
-- The window, numbers, records, keys and timers at concrete values.
use dimpl.Base.{
  ℕ, ◌+◌, ◌%◌, ◌^◌, ◌≤◌, ◌≡◌, ◌≢◌, refl, inl, inr, true, false, Option, none, some, [], ◌∷◌, ◌++◌,
  ok, Bytes, length, replicate, arith,
}
use dimpl.Base.Int.{pos, negsuc}
use dimpl.Wire.{handshake}
use dimpl.Window.{check}
use dimpl.Window.Refine.{check_refines, record_all}
use dimpl.Timer.{new, attempt, max_duration}
use dimpl.Dtls13.Search.{search, at, absent_at}
use Prim.Native.Nat.{compare}
use dimpl.Timer.Backoff.{Backs, attempts, attempts_bounds}
use dimpl.Crypto.Hkdf.{hkdf_expand, build_hkdf_label, output_len, tls13_prefix}
use dimpl.Crypto.Hkdf.Laws.{hkdf_expand-blocks, build_hkdf_label-injective}
use dimpl.Dtls13.Record.{Dtls13Record, parse, serialize}
use dimpl.Dtls13.Record.RoundTrip.{Fits, parse-serialize_plaintext, parse-serialize_ciphertext}
use dimpl.Dtls13.Reconstruct.{reconstruct_sequence, reconstruct_near, reconstruct_clamped, distance}

-- 5 was seen, 6 was not, and 70 leaves both behind.
check_refines_example : check (record_all (5 ∷ 9 ∷ 1 ∷ [])) 6 ≡ true
check_refines_example = check_refines (5 ∷ 9 ∷ 1 ∷ []) 6

reconstruct_near_example : reconstruct_sequence (70000 % 2 ^ 16) 69000 16 ≡ 70000
reconstruct_near_example =
    reconstruct_near true 70000 69000 (omega arith) (omega arith) (omega arith) (omega arith)

-- 200, and not 456, is the number that is nearest to 10 with these low 8 bits.
reconstruct_clamped_example :
    (reconstruct_sequence 200 10 8 ≡ 0) × (0 % 2 ^ 8 ≢ 200) × (distance 200 10 ≤ distance 456 10)
reconstruct_clamped_example =
    reconstruct_clamped false 200 10 456 (omega arith) (omega arith) (omega arith)

abbrev plain : Dtls13Record
plain = record {
  content_type = handshake;
  sequence = record { epoch = 0; sequence_number = 7 };
  length = 3;
  fragment_start = 1;
  fragment_end = 4;
}

abbrev buffer : Bytes
buffer = 0 ∷ 1 ∷ 2 ∷ 3 ∷ 4 ∷ []

plain-Fits : Fits plain buffer
unfolding dimpl.Dtls13.Record.fragment
plain-Fits = record { exact = refl; len = omega arith; sequence_number = omega arith }

parse-serialize_plaintext_example :
    parse (serialize plain buffer ++ (99 ∷ [])) 0
    ≡ ok (99 ∷ [], record plain { fragment_start = 0 + 13; fragment_end = 0 + 13 + 3 })
parse-serialize_plaintext_example =
    parse-serialize_plaintext plain buffer (99 ∷ []) 0 plain-Fits refl (inr (inl refl))

abbrev protected : Dtls13Record
protected = record plain { sequence = record { epoch = 6; sequence_number = 70000 } }

protected-Fits : Fits protected buffer
unfolding dimpl.Dtls13.Record.fragment
protected-Fits = record { exact = refl; len = omega arith; sequence_number = omega arith }

parse-serialize_ciphertext_example :
    parse (serialize protected buffer ++ []) 2
    ≡ ok (
      [],
      record {
        content_type = 23;
        sequence = record { epoch = 6 % 4; sequence_number = 70000 % 2 ^ 16 };
        length = 3;
        fragment_start = 2 + 5;
        fragment_end = 2 + 5 + 3;
      },
    )
parse-serialize_ciphertext_example =
    parse-serialize_ciphertext protected buffer [] 2 protected-Fits (omega arith)

-- The longest duration does not double.
overflows : attempts (new max_duration 1 (pos 0)) (pos 0 ∷ []) ≡ none
unfolding attempts attempt new
overflows = refl

-- A binary search finds what is there, and where the rest would go.
finds : search (λ x. compare x 7) (1 ∷ 3 ∷ 7 ∷ 9 ∷ 12 ∷ []) ≡ at 2
unfolding search
finds = refl

finds_place : search (λ x. compare x 8) (1 ∷ 3 ∷ 7 ∷ 9 ∷ 12 ∷ []) ≡ absent_at 3
unfolding search
finds_place = refl

-- Two attempts of four.
attempts_bounds_example :
    Backs 4_000_000_000 true (attempts (new 1_000_000_000 4 (pos 0)) (negsuc 5 ∷ pos 7 ∷ []))
attempts_bounds_example =
    attempts_bounds 1_000_000_000 4 (pos 0) (negsuc 5 ∷ pos 7 ∷ []) (omega arith) (omega arith)
      (omega arith, (omega arith, tt))

abbrev key_label : Bytes
key_label = b'k' ∷ b'e' ∷ b'y' ∷ []

abbrev context : Bytes
context = 1 ∷ []

abbrev labelled_key : Bytes
labelled_key = 0 ∷ 16 ∷ 9 ∷ (tls13_prefix ++ (key_label ++ (1 ∷ 1 ∷ [])))

labels : build_hkdf_label tls13_prefix key_label (1 ∷ []) 16 ≡ ok labelled_key
unfolding build_hkdf_label
labels = refl

abbrev sixteen : ℕ
sixteen = 16

build_hkdf_label-injective_example : (sixteen ≡ 16) × (key_label ≡ key_label) × (context ≡ context)
build_hkdf_label-injective_example =
    build_hkdf_label-injective tls13_prefix key_label key_label context context sixteen 16
      labelled_key labels labels

abbrev mac : Bytes → Bytes → Bytes
mac key text = replicate 32 7

abbrev hmac : ℕ → Bytes → Bytes → Option Bytes
hmac hash key text = some (mac key text)

sha256 : output_len 4 ≡ 32
unfolding output_len
sha256 = refl

abbrev sevens : Bytes
sevens = replicate 40 7

-- 40 bytes of output are a block and 8 bytes of the next.
hkdf_expand-blocks_example : (hkdf_expand hmac 4 key_label [] 40 ≡ ok sevens) × (length sevens ≡ 40)
unfolding output_len
hkdf_expand-blocks_example =
    hkdf_expand-blocks hmac 4 mac (λ key text. refl) key_label [] 40 (omega arith) (omega arith)
      (λ key text. refl)
