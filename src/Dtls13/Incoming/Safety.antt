-- ===== src/Dtls13/Incoming/Safety.antt =====
-- A protected record changes the state only when it is fresh and authentic, and is then never
-- accepted again.
use dimpl.Base.{
  ℕ, ◌%◌, ◌≡◌, ◌≢◌, Result, ◌⊎◌, inl, inr, true, false, Option, some, List, [], ◌∷◌, Bytes, ok,
  Bool-cases, Option-cases, take, drop, arith, find, ◌==◌,
}
use dimpl.Wire.{Sequence}
use dimpl.Window.{check}
use dimpl.Window.Refine.{check-update}
use dimpl.Dtls13.Record.{Dtls13Record}
use dimpl.Dtls13.Handshake.{BodyParser}
use dimpl.Dtls13.Engine.{Engine, Error, IncomingRecord, RecvEpochEntry}
use dimpl.Dtls13.Engine.Receive.{
  replay_check, replay_update, update_entry, decrypt_record, resolve_epoch, resolve_sequence,
}
use dimpl.Dtls13.Incoming.{open_record, s_flag}

-- The number that a record gets: its epoch and sequence number completed from the state.
abbrev pub full_sequence : Engine → ℕ → Dtls13Record → Sequence
full_sequence e flags r = record {
  epoch = resolve_epoch e (r.sequence.epoch % 256);
  sequence_number =
      resolve_sequence e (resolve_epoch e (r.sequence.epoch % 256)) r.sequence.sequence_number
        (s_flag flags);
}

-- Nothing happened.
abbrev pub Untouched : Engine → Engine × Result Error (Option IncomingRecord) → Type 0
Untouched e (e', r) = (e' ≡ e) × ((o : IncomingRecord) → r ≢ ok (some o))

-- The record was fresh and authentic, and only its number was recorded.
abbrev pub Accepted :
    ℕ → Bytes → Dtls13Record → Engine → Engine × Result Error (Option IncomingRecord) → Type 0
Accepted flags buffer r e (e', _) =
    (replay_check e (full_sequence e flags r) ≡ true)
    × ((text : Bytes) × (decrypt_record e (take r.fragment_start buffer) (full_sequence e flags r)
            (drop r.fragment_start buffer)
          ≡ ok text))
    × (e' ≡ replay_update (full_sequence e flags r) e)

-- Opening a protected record leaves the state as it is and delivers nothing, or the number of the
-- record passes the replay check, its content decrypts under that number, and the state changes
-- by the update of the window alone.
pub open_record_safe :
    (parse_body : BodyParser) (flags : ℕ) (buffer : Bytes) (r : Dtls13Record) (e : Engine)
    → Untouched e (open_record parse_body flags buffer r e)
      ⊎ Accepted flags buffer r e (open_record parse_body flags buffer r e)
unfolding open_record
open_record_safe parse_body flags buffer r e = ground arith

replayed_entry :
    (seq : Sequence) (rs : List RecvEpochEntry) (a : RecvEpochEntry)
    → find (λ r. r.epoch == seq.epoch) (update_entry seq rs) ≡ some a
    → check a.replay seq.sequence_number ≡ false
unfolding update_entry
replayed_entry seq [] a h = ground arith
replayed_entry seq (r ∷ rs) a h = elim (Bool-cases (r.epoch == seq.epoch)) [
  | inl s ↦ ground (arith, s, check-update r.replay seq.sequence_number)
  | inr s ↦ replayed_entry seq rs a (ground (arith, s))
]

-- Once a number has been recorded in the window of its epoch, the replay check rejects it.
pub replay_check-replay_update :
    (seq : Sequence) (e : Engine) → replay_check (replay_update seq e) seq ≡ false
unfolding replay_check replay_update
replay_check-replay_update seq e = elim (Bool-cases (seq.epoch == 2)) [
  | inl s ↦ ground (arith, s, check-update e.hs_replay seq.sequence_number)
  | inr s ↦
      elim (Option-cases (find (λ r. r.epoch == seq.epoch) (update_entry seq e.app_recv_keys))) [
        | inl n ↦ ground (arith, s, n)
        | inr (a, n) ↦ ground (arith, s, n, replayed_entry seq e.app_recv_keys a n)
      ]
]
