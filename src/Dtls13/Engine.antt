-- ===== src/Dtls13/Engine.antt =====
-- src/dtls13/engine.rs: the state of the DTLS 1.3 engine and the effects of its methods.
pub mod Send
pub mod Scan
pub mod Fragment
pub mod Flight
pub mod Timers
pub mod Keys
pub mod Rotate
pub mod Receive
pub mod Threshold
pub mod Numbers
pub mod Saved
pub mod Rounds
pub mod Cover
pub mod Pieces
pub mod Rejoin
pub mod Epochs
pub mod Close
pub mod Settle
pub mod Mtu
pub mod Datagrams
pub mod Flights
pub mod Capacity
pub mod Retained
pub mod LastSent
pub mod Sealed
pub mod Nonce
pub mod AckRoundTrip
use dimpl.Base.{
  ℕ, ◌+◌, ◌-◌, ◌*◌, ◌/◌, ◌%◌, ◌^◌, Bool, true, false, Option, none, some, List, [], ◌∷◌, ◌++◌,
  Result, ok, err, Bytes, ltb, leb, ◌==◌, if◌then◌else◌, length, ◌≡◌, ap,
}
use dimpl.Base.Int.{ℤ}
use dimpl.Wire.{ContentType, Sequence, sequence_new, Err}
use dimpl.Window.{ReplayWindow}
use dimpl.Window
use dimpl.Timer.{ExponentialBackoff}
use dimpl.Crypto.Provider.{Provider}
use dimpl.Crypto.Hkdf.{HkdfError}
use dimpl.Dtls13.Record.{Dtls13Record}
use dimpl.Dtls13.Handshake.{Handshake}

-- The errors that the modelled methods return. `panicked` is no value of `Error`: it stands for a
-- panic, as of `ArrayVec::push` on a full vector or of `unwrap` on `None`. Nor is `no_end`, for a
-- loop that has not ended when its fuel is used up.
pub data Error : Type 0 where
  receive_queue_full transmit_queue_full renegotiation_attempt : Error
  connect_timeout handshake_timeout : Error
  send_keys_not_available : ℕ → Error
  recv_keys_not_available : ℕ → Error
  epoch0_sequence_number_exhausted : Error
  send_sequence_number_exhausted : ℕ → Error
  no_current_app_send_keys no_current_app_recv_keys : Error
  fatal_alert : ℕ → Error
  crypto_failed : Error
  derivation_failed : HkdfError → Error
  parse_incomplete too_many_records : Error
  parse_failed : Err → Error
  panicked no_end : Error

-- The values of `Config` that the engine reads. Durations are in nanoseconds.
pub record Config : Type 0 where
  pub mtu : ℕ
  pub max_queue_rx : ℕ
  pub max_queue_tx : ℕ
  pub handshake_timeout : ℕ
  pub aead_encryption_limit : ℕ
  pub provider : Provider

-- `SeededRng`: the jitters and the 64-bit words that are drawn, and how many were.
pub record SeededRng : Type 0 where
  pub jitters : ℕ → ℤ
  pub words : ℕ → ℕ
  pub drawn : ℕ

-- `EpochKeys`; a cipher is given by its key.
pub record EpochKeys : Type 0 where
  pub cipher : Bytes
  pub iv : Bytes
  pub traffic_secret : Bytes
  pub sn_key : Bytes

pub record RecvEpochEntry : Type 0 where
  pub epoch : ℕ
  pub keys : EpochKeys
  pub expected_recv_seq : ℕ
  pub replay : ReplayWindow

pub data Timeout : Type 0 where
  disabled unarmed : Timeout
  armed : ℕ → Timeout

-- A record of the current flight, kept for retransmission.
pub record Entry : Type 0 where
  pub content_type : ContentType
  pub epoch : ℕ
  pub send_seq : ℕ
  pub fragment : Bytes
  pub acked : Bool

-- `Record` with its `ParsedRecord`, in src/dtls13/incoming.rs.
pub record IncomingRecord : Type 0 where
  pub buffer : Bytes
  pub parsed : Dtls13Record
  pub handshakes : List Handshake
  pub handled : Bool

-- The records of one datagram: the first, which is always there, and the rest.
pub record Incoming : Type 0 where
  pub first : IncomingRecord
  pub others : List IncomingRecord

-- Instants are numbers of nanoseconds. Buffers are owned by one place at a time, so that the pool
-- `buffers_free` is not part of the state.
pub record Engine : Type 0 where
  pub config : Config
  pub rng : SeededRng
  pub sequence_epoch_0 : Sequence
  pub queue_rx : List Incoming
  pub queue_tx : List Bytes
  pub cipher_suite : Option ℕ
  pub hs_send_keys : Option EpochKeys
  pub hs_recv_keys : Option EpochKeys
  pub hs_expected_recv_seq : ℕ
  pub app_send_epoch : ℕ
  pub hs_send_seq : ℕ
  pub app_send_seq : ℕ
  pub app_send_keys : Option EpochKeys
  pub prev_app_send_keys : Option EpochKeys
  pub prev_app_send_epoch : ℕ
  pub prev_app_send_seq : ℕ
  pub app_recv_keys : List RecvEpochEntry
  pub peer_encryption_enabled : Bool
  pub is_client : Bool
  pub peer_handshake_seq_no : ℕ
  pub next_handshake_seq_no : ℕ
  pub transcript : Bytes
  pub hs_replay : ReplayWindow
  pub received_record_numbers : List (ℕ × ℕ)
  pub handshake_ack_deadline : Option ℕ
  pub datagram_sealed : Bool
  pub flight_saved_records : List Entry
  pub flight_backoff : ExponentialBackoff
  pub flight_timeout : Timeout
  pub connect_timeout : Timeout
  pub release_app_data : Bool
  pub exporter_master_secret : Option Bytes
  pub app_send_record_count : ℕ
  pub aead_encryption_threshold : ℕ
  pub needs_key_update : Bool
  pub close_notify_sequence : Option Sequence
  pub close_notify_reported : Bool

-- A method on `&mut self` that may fail: what it changed stays changed.
abbrev pub M : Type 0 → Type 0
M A = Engine → Engine × Result Error A

abbrev pub continue_with :
    {A B : Type 0} → Engine × Result Error A → (A → M B) → Engine × Result Error B
continue_with (e, ok a) f = f a e
continue_with (e, err x) f = (e, err x)

infixl 5 ◌>>=◌ ◌>>◌
abbrev pub ◌>>=◌ : {A B : Type 0} → M A → (A → M B) → M B
◌>>=◌ m f e = continue_with (m e) f

abbrev pub ◌>>◌ : {B : Type 0} → M (Unit {0}) → M B → M B
m >> k = m >>= λ _. k

pub then-ok :
    {B : Type 0} (m : M (Unit {0})) (k : M B) (e e' : Engine)
    → m e ≡ (e', ok tt)
    → (m >> k) e ≡ k e'
then-ok m k e e' h = ap (λ p. continue_with p (λ _. k)) h

pub then-err :
    {B : Type 0} (m : M (Unit {0})) (k : M B) (e e' : Engine) (x : Error)
    → m e ≡ (e', err x)
    → (m >> k) e ≡ (e', err x)
then-err m k e e' x h = ap (λ p. continue_with p (λ _. k)) h

abbrev pub pure : {A : Type 0} → A → M A
pure a e = (e, ok a)

abbrev pub fail : {A : Type 0} → Error → M A
fail x e = (e, err x)

abbrev pub modify : (Engine → Engine) → M (Unit {0})
modify f e = (f e, ok tt)

-- The largest sequence number, 2^48 - 1, and the capacities of the engine's `ArrayVec`s.
abbrev pub max_sequence_number : ℕ
max_sequence_number = 2 ^ 48 - 1

abbrev pub max_defragment_packets : ℕ
max_defragment_packets = 50

abbrev pub flight_capacity : ℕ
flight_capacity = 12

abbrev pub ack_capacity : ℕ
ack_capacity = 32

abbrev pub recv_epoch_capacity : ℕ
recv_epoch_capacity = 4

-- The next jitter, and the next word.
abbrev pub next_jitter : Engine → ℤ
next_jitter e = e.rng.jitters e.rng.drawn

abbrev pub next_word : Engine → ℕ
next_word e = e.rng.words e.rng.drawn

abbrev pub advance : SeededRng → SeededRng
advance r = record r { drawn = r.drawn + 1 }

-- `jittered_aead_threshold` with the word that it draws, if it draws one.
unfoldable pub jittered_aead_threshold : ℕ → ℕ → ℕ
jittered_aead_threshold limit word =
    let quarter = limit / 4 in
    if quarter == 0 then limit else limit - quarter + word % (quarter + 1)
