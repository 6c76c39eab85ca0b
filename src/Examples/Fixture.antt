-- ===== src/Examples/Fixture.antt =====
-- A backend and an engine to run on: the backend appends a tag of 16 zeros, and its masks are zeros.
use dimpl.Base.{
  ◌-◌, true, false, none, some, [], ◌++◌, Bytes, length, take, replicate, ok, ltb, if◌then◌else◌,
}
use dimpl.Base.Int.{pos}
use dimpl.Wire.{sequence_new}
use dimpl.Window
use dimpl.Crypto.Provider.{Provider}
use dimpl.Dtls13.Handshake.{BodyParser, message}
use dimpl.Dtls13.Engine.{Engine, EpochKeys, unarmed}

abbrev pub backend : Provider
backend = record {
  hmac = λ h key text. some (replicate 32 7);
  hash = λ h text. replicate 32 9;
  tag_len = λ s. 16;
  key_len = λ s. 16;
  iv_len = λ s. 12;
  min_protected_fragment_len = λ s. 17;
  create_cipher = λ s key. some key;
  encrypt = λ key aad nonce text. some (text ++ replicate 16 0);
  decrypt = λ key aad nonce text.
      if ltb (length text) 16 then none else some (take (length text - 16) text);
  encrypt_sn = λ s key sample. replicate 16 0;
}

abbrev pub keys : EpochKeys
keys = record {
  cipher = replicate 16 1;
  iv = replicate 12 2;
  traffic_secret = replicate 32 3;
  sn_key = replicate 16 4;
}

-- A server in the middle of its handshake; small datagrams make messages fragment.
abbrev pub server : Engine
server = record {
  config = record {
    mtu = 40;
    max_queue_rx = 30;
    max_queue_tx = 10;
    handshake_timeout = 40_000_000_000;
    aead_encryption_limit = 1000;
    provider = backend;
  };
  rng = record { jitters = λ n. pos 0; words = λ n. n; drawn = 0 };
  sequence_epoch_0 = sequence_new 0;
  queue_rx = [];
  queue_tx = [];
  cipher_suite = some 0x1301;
  hs_send_keys = some keys;
  hs_recv_keys = some keys;
  hs_expected_recv_seq = 0;
  app_send_epoch = 3;
  hs_send_seq = 5;
  app_send_seq = 0;
  app_send_keys = none;
  prev_app_send_keys = none;
  prev_app_send_epoch = 0;
  prev_app_send_seq = 0;
  app_recv_keys = [];
  peer_encryption_enabled = true;
  is_client = false;
  peer_handshake_seq_no = 0;
  next_handshake_seq_no = 1;
  transcript = [];
  hs_replay = Window.new;
  received_record_numbers = [];
  handshake_ack_deadline = none;
  datagram_sealed = false;
  flight_saved_records = [];
  flight_backoff = record {
    start_rto = 1_000_000_000;
    retries = 4;
    current = 1_000_000_000;
    jitter = pos 0;
    left = 4;
  };
  flight_timeout = unarmed;
  connect_timeout = unarmed;
  release_app_data = false;
  exporter_master_secret = none;
  app_send_record_count = 0;
  aead_encryption_threshold = 1000;
  needs_key_update = false;
  close_notify_sequence = none;
  close_notify_reported = false;
}

abbrev pub parse_body : BodyParser
parse_body msg_type bytes base = ok ([], message msg_type bytes)

-- A body of 20 bytes: two fragments, of 15 and of 5.
abbrev pub hello : Bytes
hello = replicate 20 8
