-- ===== src/Dtls13/Engine/LastSent.antt =====
-- src/dtls13/engine.rs, `create_ciphertext_record`: where a ciphertext goes.
use dimpl.Base.{
  ℕ, ◌+◌, ◌≡◌, refl, sym, ap, ◌∙◌, inl, inr, Bool, true, false, not, ◌&&◌, none, some, List, [],
  ◌∷◌, ◌++◌, append_assoc, Result, ok, err, Bytes, length, is_empty, take, ◌%◌, ◌/◌, subst, last?,
  slice-length, leb, ◌==◌, Bool-cases,
}
use dimpl.Wire.{application_data, u16_bytes, u48_bytes}
use dimpl.Dtls13.Record.{
  Dtls13Record, serialize, serialize_plaintext, serialize_ciphertext, fragment, unified_flags,
}
use dimpl.Dtls13.Engine.{
  Engine, Error, max_sequence_number, transmit_queue_full, send_sequence_number_exhausted,
}
use dimpl.Dtls13.Engine.Send.{
  Slot, slot_seq, ciphertext_tail, can_append, enqueue, extend_last, bump_slot, mask_number,
  xor_bytes, hs, prev, app,
}

-- The last bytes of the last datagram in a queue.
pub record LastSent (ciphertext : Bytes) (queue : List Bytes) : Type 0 where
  pub datagrams : List Bytes
  pub before : Bytes
  pub is_last : queue ≡ datagrams ++ ((before ++ ciphertext) ∷ [])

record EndsIn (ciphertext wire : Bytes) : Type 0 where
  pub front : Bytes
  pub splits : wire ≡ front ++ ciphertext

masked-EndsIn :
    (a b c : ℕ) (p mask ciphertext wire : Bytes)
    → wire ≡ a ∷ b ∷ c ∷ (p ++ ciphertext)
    → EndsIn ciphertext (mask_number mask wire)
masked-EndsIn a b c p mask ciphertext wire h = record {
  front = a ∷ (xor_bytes (b ∷ c ∷ []) (take 2 mask) ++ p);
  splits =
      ap (mask_number mask) h
      ∙ ap (λ t. a ∷ t) (sym (append_assoc (xor_bytes (b ∷ c ∷ []) (take 2 mask)) p ciphertext));
}

-- The record that the ciphertext is serialized with.
abbrev outer : ℕ → ℕ → Bytes → Dtls13Record
outer epoch seq ciphertext = record {
  content_type = application_data;
  sequence = record { epoch = epoch; sequence_number = seq };
  length = length ciphertext % 65536;
  fragment_start = 0;
  fragment_end = length ciphertext;
}

serialized-EndsIn :
    (epoch seq : ℕ) (mask ciphertext : Bytes)
    → EndsIn ciphertext (mask_number mask (serialize (outer epoch seq ciphertext) ciphertext))
unfolding serialize serialize_plaintext serialize_ciphertext fragment
serialized-EndsIn epoch seq mask ciphertext =
    let len = u16_bytes (length ciphertext % 65536) in
    let low = seq % 65536 in
    elim (Bool-cases (epoch == 0)) [
      | inl z ↦
          masked-EndsIn 23 254 253 (u16_bytes epoch ++ (u48_bytes seq ++ len)) mask ciphertext
            (serialize (outer epoch seq ciphertext) ciphertext)
            (rw z (
              ap (λ t. 23 ∷ 254 ∷ 253 ∷ (u16_bytes epoch ++ (u48_bytes seq ++ (len ++ t))))
                (slice-length ciphertext)))
      | inr z ↦
          masked-EndsIn (unified_flags epoch) (low / 256 % 256) (low % 256) len mask ciphertext
            (serialize (outer epoch seq ciphertext) ciphertext)
            (rw z (
              ap (λ t. unified_flags epoch ∷ (u16_bytes low ++ (len ++ t)))
                (slice-length ciphertext)))
    ]

fresh-LastSent :
    (queue : List Bytes) (ciphertext wire : Bytes)
    → EndsIn ciphertext wire
    → LastSent ciphertext (queue ++ (wire ∷ []))
fresh-LastSent queue ciphertext wire w = record {
  datagrams = queue;
  before = w.front;
  is_last = ap (λ t. queue ++ (t ∷ [])) w.splits;
}

extend_last-LastSent :
    (queue : List Bytes) (ciphertext wire : Bytes)
    → is_empty queue ≡ false
    → EndsIn ciphertext wire
    → LastSent ciphertext (extend_last queue wire)
extend_last-LastSent [] ciphertext wire some_there w = cc
extend_last-LastSent (b ∷ []) ciphertext wire some_there w = record {
  datagrams = [];
  before = b ++ w.front;
  is_last =
      ap (λ t. (b ++ t) ∷ []) w.splits ∙ ap (λ t. t ∷ []) (sym (append_assoc b w.front ciphertext));
}
extend_last-LastSent (b ∷ c ∷ q) ciphertext wire some_there w =
    let more = extend_last-LastSent (c ∷ q) ciphertext wire refl w in
    record {
      datagrams = b ∷ more.datagrams;
      before = more.before;
      is_last = ap (λ t. b ∷ t) more.is_last;
    }

has_last :
    (queue : List Bytes) (unsealed : Bool) (fits : Bytes → Bool)
    → (unsealed && elim (last? queue) [ none ↦ false | some b ↦ fits b ]) ≡ true
    → is_empty queue ≡ false
has_last [] true fits h = cc
has_last [] false fits h = cc
has_last (b ∷ q) unsealed fits h = refl

can_append-has_last : (e : Engine) (len : ℕ) → can_append e len ≡ true → is_empty e.queue_tx ≡ false
unfolding can_append
can_append-has_last e len h = has_last e.queue_tx (not e.datagram_sealed) _ h

bump_slot-queue :
    (epoch : ℕ) (slot : Slot) (e : Engine) → (bump_slot epoch slot e).queue_tx ≡ e.queue_tx
unfolding bump_slot
bump_slot-queue epoch hs e = refl
bump_slot-queue epoch prev e = refl
bump_slot-queue epoch app e = elim (Bool-cases (leb 3 epoch)) [
  | inl h ↦ rw h refl
  | inr h ↦ rw h refl
]

enqueue-LastSent :
    (append : Bool) (ciphertext wire : Bytes) (e bumped : Engine)
    → bumped.queue_tx ≡ e.queue_tx
    → (append ≡ true → is_empty e.queue_tx ≡ false)
    → EndsIn ciphertext wire
    → LastSent ciphertext (enqueue append wire bumped).queue_tx
unfolding enqueue
enqueue-LastSent true ciphertext wire e bumped same some_there w =
    extend_last-LastSent bumped.queue_tx ciphertext wire (ap is_empty same ∙ some_there refl) w
enqueue-LastSent false ciphertext wire e bumped same some_there w =
    fresh-LastSent bumped.queue_tx ciphertext wire w

pub failed :
    (x : Error) (e e1 : Engine)
    → ¬ (◌≡◌ {A = Engine × Result Error (Unit {0})} (e, err x) (e1, ok tt))
failed x e e1 h = cc

built : (e e1 : Engine) → ◌≡◌ {A = Engine × Result Error (Unit {0})} (e, ok tt) (e1, ok tt) → e ≡ e1
built e e1 h = ap (λ (p : Engine × Result Error (Unit {0})). p.0) h

pub ciphertext_tail-LastSent :
    (epoch : ℕ) (slot : Slot) (seq : ℕ) (ciphertext mask : Bytes) (e e1 : Engine)
    → ciphertext_tail epoch slot seq ciphertext mask e ≡ (e1, ok tt)
    → LastSent ciphertext e1.queue_tx
unfolding ciphertext_tail
ciphertext_tail-LastSent epoch slot seq ciphertext mask e e1 h =
    let wire = mask_number mask (serialize (outer epoch seq ciphertext) ciphertext) in
    let append = can_append e (5 + length ciphertext) in
    elim (Bool-cases (not append && leb e.config.max_queue_tx (length e.queue_tx))) [
      | inl t ↦ absurd (failed (transmit_queue_full) e e1 (rw t at h))
      | inr t ↦ elim (Bool-cases (leb max_sequence_number (slot_seq e slot))) [
        | inl u ↦ absurd (failed (send_sequence_number_exhausted epoch) e e1 (rw (t, u) at h))
        | inr u ↦
            subst (λ x. LastSent ciphertext x.queue_tx) (built _ e1 (rw (t, u) at h))
              (enqueue-LastSent append ciphertext wire e (bump_slot epoch slot e)
                (bump_slot-queue epoch slot e) (can_append-has_last e (5 + length ciphertext))
                (serialized-EndsIn epoch seq mask ciphertext))
      ]
    ]
