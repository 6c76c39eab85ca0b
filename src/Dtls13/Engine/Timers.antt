-- ===== src/Dtls13/Engine/Timers.antt =====
-- src/dtls13/engine.rs: the driving calls, `poll_output` and `handle_timeout`, and the scheduling of
-- handshake acknowledgements.
use dimpl.Base.{
  ℕ, ◌+◌, ◌*◌, ◌/◌, Bool, true, false, not, ◌&&◌, Option, none, some, List, [], ◌∷◌, ◌++◌, ok, err,
  Bytes, ltb, leb, ◌==◌, if◌then◌else◌, length, all, is_empty,
}
use dimpl.Wire.{application_data, handshake}
use dimpl.Timer.{rto, can_retry}
use dimpl.Dtls13.Record
use dimpl.Dtls13.Engine.{
  Engine, Error, M, ◌>>◌, panicked, Timeout, disabled, unarmed, armed, Incoming, IncomingRecord,
  ack_capacity,
}
use dimpl.Dtls13.Engine.Send.{create_ciphertext_record, is_some}
use dimpl.Dtls13.Engine.Scan.{
  handshake_ack_help_needed, has_gap_in_incoming_handshake, records, flat_records, is_handled,
}
use dimpl.Dtls13.Engine.Flight.{attempt_backoff, flight_resend, ack_bytes}
use dimpl.Wire

unfoldable pub handshake_in_progress : Engine → Bool
handshake_in_progress e =
    is_some e.hs_send_keys && (not (is_some e.app_send_keys) && not e.release_app_data)

unfoldable pub maybe_schedule_handshake_ack : ℕ → M (Unit {0})
maybe_schedule_handshake_ack now e =
    if not (handshake_in_progress e)
    then (record e { handshake_ack_deadline = none }, ok tt)
    else if is_some e.handshake_ack_deadline
    then (e, ok tt)
    else if not (handshake_ack_help_needed e)
    then (e, ok tt)
    else if has_gap_in_incoming_handshake e
    then (record e { handshake_ack_deadline = some now }, ok tt)
    else elim (rto e.flight_backoff) [
      | none ↦ (e, err panicked)
      | some d ↦ (record e { handshake_ack_deadline = some (now + d / 4) }, ok tt)
    ]

-- `try_push` on a vector of 32: what does not fit is dropped.
abbrev pub push_number : ℕ × ℕ → List (ℕ × ℕ) → List (ℕ × ℕ)
push_number n ns = if ltb (length ns) ack_capacity then ns ++ (n ∷ []) else ns

abbrev pub handshake_numbers : List IncomingRecord → List (ℕ × ℕ) → List (ℕ × ℕ)
handshake_numbers [] ns = ns
handshake_numbers (r ∷ rs) ns = handshake_numbers rs (
    if r.parsed.sequence.epoch == 2 && r.parsed.content_type == handshake
    then push_number (r.parsed.sequence.epoch, r.parsed.sequence.sequence_number) ns
    else ns)

unfoldable pub send_handshake_ack_epoch2 : List (ℕ × ℕ) → M (Unit {0})
send_handshake_ack_epoch2 ns e =
    if not (handshake_in_progress e)
    then (e, ok tt)
    else create_ciphertext_record Wire.ack 2 false (ack_bytes ns) e

unfoldable pub maybe_flush_handshake_ack : ℕ → M (Unit {0})
maybe_flush_handshake_ack now e = elim e.handshake_ack_deadline [
  | none ↦ (e, ok tt)
  | some deadline ↦
      if ltb now deadline
      then (e, ok tt)
      else (let ns = handshake_numbers (flat_records e.queue_rx) [] in
          let e' = record e { handshake_ack_deadline = none } in
          if is_empty ns then (e', ok tt) else send_handshake_ack_epoch2 ns e')
]

abbrev pub is_unarmed : Timeout → Bool
is_unarmed unarmed = true
is_unarmed disabled = false
is_unarmed (armed t) = false

abbrev pub is_disabled : Timeout → Bool
is_disabled disabled = true
is_disabled unarmed = false
is_disabled (armed t) = false

-- The deadline of an armed timer that has passed.
abbrev pub has_passed : ℕ → Timeout → Bool
has_passed now disabled = false
has_passed now unarmed = false
has_passed now (armed t) = leb t now

-- `self.flight_timeout = Timeout::Armed(now + self.flight_backoff.rto())`
unfoldable pub arm_flight : ℕ → M (Unit {0})
arm_flight now e = elim (rto e.flight_backoff) [
  | none ↦ (e, err panicked)
  | some d ↦ (record e { flight_timeout = armed (now + d) }, ok tt)
]

abbrev pub arm_connect : ℕ → Engine → Engine
arm_connect now e = record e {
  connect_timeout =
      if is_unarmed e.connect_timeout
      then armed (now + e.config.handshake_timeout)
      else e.connect_timeout;
}

unfoldable pub arm_timers : ℕ → M (Unit {0})
arm_timers now start =
    let e = arm_connect now start in
    if is_unarmed e.flight_timeout then arm_flight now e else (e, ok tt)

abbrev pub is_armed : Timeout → Bool
is_armed disabled = false
is_armed unarmed = false
is_armed (armed t) = true

unfoldable pub schedule_and_flush : ℕ → M (Unit {0})
schedule_and_flush now = do maybe_schedule_handshake_ack now; maybe_flush_handshake_ack now

-- `handle_timeout` behind the arming of the timers.
unfoldable pub expire_timers : ℕ → M (Unit {0})
expire_timers now e =
    if has_passed now e.connect_timeout
    then (e, err Error.connect_timeout)
    else if not (is_armed e.flight_timeout)
    then (e, ok tt)
    else if has_passed now e.flight_timeout
    then (if can_retry e.flight_backoff
        then (do attempt_backoff; arm_flight now; flight_resend; schedule_and_flush now) e
        else (e, err Error.handshake_timeout))
    else schedule_and_flush now e

unfoldable pub handle_timeout : ℕ → M (Unit {0})
handle_timeout now = do arm_timers now; expire_timers now

-- Ten years.
abbrev pub distant_future : ℕ
distant_future = 10 * 365 * 24 * 60 * 60 * 1_000_000_000

abbrev pub earlier : Timeout → Timeout → ℕ → ℕ
earlier (armed c) (armed f) other = if ltb c f then c else f
earlier (armed c) _ other = c
earlier _ (armed f) other = f
earlier _ _ other = other

unfoldable pub poll_timeout : ℕ → Engine → ℕ
poll_timeout now e =
    if is_disabled e.connect_timeout
      && (is_disabled e.flight_timeout && not (is_some e.handshake_ack_deadline))
    then now + distant_future
    else (let timer = earlier e.connect_timeout e.flight_timeout (now + distant_future) in
        elim e.handshake_ack_deadline [
          | none ↦ timer
          | some deadline ↦ if ltb deadline timer then deadline else timer
        ])

-- Datagrams at the front of the receive queue whose records are all handled are dropped.
unfoldable pub purge_handled : List Incoming → List Incoming
purge_handled [] = []
purge_handled (i ∷ q) = if all is_handled (records i) then purge_handled q else i ∷ q

-- The first record of application data that is not handled, and the queue in which it is.
abbrev is_waiting : IncomingRecord → Bool
is_waiting r = r.parsed.content_type == application_data && not (is_handled r)

unfoldable pub take_records : List IncomingRecord → Option (Bytes × List IncomingRecord)
take_records [] = none
take_records (r ∷ rs) =
    let rest = take_records rs in
    if is_waiting r
    then some (Record.fragment r.parsed r.buffer, record r { handled = true } ∷ rs)
    else elim rest [ none ↦ none | some (bytes, rs') ↦ some (bytes, r ∷ rs') ]

unfoldable pub take_app_data : List Incoming → Option (Bytes × List Incoming)
take_app_data [] = none
take_app_data (i ∷ q) =
    let rest = take_app_data q in
    if is_waiting i.first
    then some (
      Record.fragment i.first.parsed i.first.buffer,
      record i { first = record i.first { handled = true } } ∷ q,
    )
    else elim (take_records i.others) [
      | some (bytes, others) ↦ some (bytes, record i { others = others } ∷ q)
      | none ↦ elim rest [ none ↦ none | some (bytes, q') ↦ some (bytes, i ∷ q') ]
    ]

-- `Output`, as far as the engine produces it. `too_small` is the panic for a buffer that is too small,
-- `overflowed` that for a duration that is too long.
pub data Output : Type 0 where
  application : Bytes → Output
  packet : Bytes → Output
  close_notify too_small overflowed : Output
  timeout : ℕ → Output

abbrev pub emit : ℕ → (Bytes → Output) → Bytes → Output
emit size what bytes = if ltb size (length bytes) then too_small else what bytes

-- `poll_output` with a buffer of `size` bytes.
unfoldable pub poll_packet : ℕ → ℕ → Engine → Engine × Output
poll_packet size now e = elim e.queue_tx [
  | p ∷ q ↦ (record e { queue_tx = q }, emit size packet p)
  | [] ↦
      if is_some e.close_notify_sequence && not e.close_notify_reported
      then (record e { close_notify_reported = true }, close_notify)
      else (e, timeout (poll_timeout now e))
]

unfoldable pub poll_output : ℕ → ℕ → Engine → Engine × Output
poll_output size now start =
    let e = record start { queue_rx = purge_handled start.queue_rx } in
    elim (if e.release_app_data then take_app_data e.queue_rx else none) [
      | some (bytes, q) ↦ (record e { queue_rx = q }, emit size application bytes)
      | none ↦
          let (e', scheduled) = maybe_schedule_handshake_ack now e in
          elim scheduled [ ok _ ↦ poll_packet size now e' | err x ↦ (e', overflowed) ]
    ]
