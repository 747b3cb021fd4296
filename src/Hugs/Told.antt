-- ===== src/Hugs/Told.antt =====
-- A transaction that tells the requester something: the next number is taken, one event is written
-- with it, and a command that carries the event is enqueued for the daemon.
use text.Mathlib.Text.{◌==◌}
use Prim.Native.Nat.{suc, max}
use cliqhub_core.Prelude.{
  ℕ, ◌+◌, String, false, ◌≡◌, refl, ap, List, [], ◌∷◌, ◌++◌, Option, none, some, Bool-cases, inl,
  inr, arith, eq_iff, update_where, is_none,
}
use cliqhub_core.Outbox.Delivery.{command_outbox_enqueue}
use cliqhub_core.Hugs.{
  Hug, HugEventRow, HugEventType, HugStore, StoredArtifact, Notice, done, or_refuse, find_hug,
  internal,
}
use cliqhub_core.Hugs.Parts.{append_seq, of_id, incremented, deliver, write_event, delivery_fields}
use cliqhub_core.Json.{Fields}
use cliqhub_core.Hugs.Rules.{OnDone, OnDone_elim, bind-OnDone}

-- The highest event number that is taken for the hug.
abbrev pub last_seq_of : Option Hug → ℕ
last_seq_of none = 0
last_seq_of (some h) = h.last_seq

abbrev pub numbered_to : String → List Hug → ℕ
numbered_to id hugs = last_seq_of (find_hug id hugs)

-- From `hugs` and the events before to the store after, in which the hug has one event more.
pub record Told (h : Hug) (s t : HugStore) : Type 0 where
  pub event : HugEventRow
  pub tx_id : String
  pub at : ℕ
  pub event_of : event.hug_id ≡ h.id
  pub is_there : is_none (find_hug h.id s.hugs) ≡ false
  pub number : event.seq ≡ suc (numbered_to h.id s.hugs)
  pub hugs_after : t.hugs ≡ update_where (of_id h.id) incremented s.hugs
  pub events_after : t.hug_events ≡ s.hug_events ++ (event ∷ [])
  pub queue_after :
      t.queue
      ≡ command_outbox_enqueue tx_id at h.daemon_id "/v1/hugs/deliver"
          (delivery_fields h event.seq event.type_of event.payload)
          none
          (some (max h.expires_at at + 3600000))
          s.queue

-- What the counter is after the increment.
abbrev Counted : String → List Hug → Hug → Type 0
Counted id hugs h = (is_none (find_hug id hugs) ≡ false) × (h.last_seq ≡ suc (numbered_to id hugs))

pub found-Counted :
    (id : String) (hugs : List Hug) (h : Hug)
    → find_hug id (update_where (of_id id) incremented hugs) ≡ some h
    → Counted id hugs h
unfolding update_where
found-Counted id [] h e = cc
found-Counted id (x ∷ xs) h e = elim (Bool-cases (x.id == id)) [
  | inl t ↦
      let q : x.last_seq + 1 ≡ h.last_seq = ap last_seq_of (rw (t, t) at e) in
      rw t (refl, omega arith)
  | inr n ↦ rw n (found-Counted id xs h (rw (n, n) at e))
]

-- The counter of each other hug is as before.
pub numbered_to-incremented :
    (id other : String) (hugs : List Hug)
    → (id == other) ≡ false
    → numbered_to other (update_where (of_id id) incremented hugs) ≡ numbered_to other hugs
unfolding update_where
numbered_to-incremented id other [] n = refl
numbered_to-incremented id other (x ∷ xs) n = elim (Bool-cases (x.id == id)) [
  | inl t ↦
      let far : (x.id == other) ≡ false = ground (arith, eq_iff x.id id) in
      rw t (rw far (numbered_to-incremented id other xs n))
  | inr m ↦ rw m (elim (Bool-cases (x.id == other)) [
    | inl t ↦ rw t refl
    | inr f ↦ rw f (numbered_to-incremented id other xs n)
  ])
]

-- What `append_seq` leaves, and the number it gives.
pub record Appended (id : String) (s t : HugStore) (seq : ℕ) : Type 0 where
  pub is_there : is_none (find_hug id s.hugs) ≡ false
  pub number : seq ≡ suc (numbered_to id s.hugs)
  pub hugs_after : t.hugs ≡ update_where (of_id id) incremented s.hugs
  pub same_events : t.hug_events ≡ s.hug_events
  pub same_queue : t.queue ≡ s.queue

abbrev AppendedTo : String → HugStore → HugStore × ℕ → Type 0
AppendedTo id s (t, seq) = Appended id s t seq

append_seq-OnDone : (id : String) (s : HugStore) → OnDone (AppendedTo id s) (append_seq id s)
unfolding append_seq
append_seq-OnDone id s =
    bind-OnDone (AppendedTo id s) (or_refuse (find_hug id hugs) internal)
      (λ h. done (record s { hugs = hugs }, h.last_seq))
      λ h e.
        let found : find_hug id hugs ≡ some h = found_of (find_hug id hugs) h e in
        let (there, number) = found-Counted id s.hugs h found in
        record {
          is_there = there;
          number = number;
          hugs_after = refl;
          same_events = refl;
          same_queue = refl;
        }
  where
    hugs : List Hug
    hugs = update_where (of_id id) incremented s.hugs

    found_of : (o : Option Hug) (h : Hug) → or_refuse o internal ≡ done h → o ≡ some h
    found_of none h e = cc
    found_of (some g) h e = cc

pub append_seq-Appended :
    (id : String) (s t : HugStore) (seq : ℕ) → append_seq id s ≡ done (t, seq) → Appended id s t seq
append_seq-Appended id s t seq e =
    OnDone_elim (AppendedTo id s) (append_seq id s) (t, seq) (append_seq-OnDone id s) e

-- A delivery of the event that has just been written with the number that was taken.
unfoldable pub deliver-Told :
    (tx_id : String) (sent_at written_at : ℕ) (h : Hug) (seq : ℕ) (type_of : HugEventType)
    (payload : Fields) (s t : HugStore)
    → Appended h.id s t seq
    → Told h s (
        deliver tx_id sent_at h seq type_of payload
          (write_event written_at h seq type_of payload t))
unfolding deliver write_event
deliver-Told tx_id sent_at written_at h seq type_of payload s t a =
    let event : HugEventRow = record {
      hug_id = h.id;
      seq = seq;
      type_of = type_of;
      payload = payload;
      created_at = written_at;
    } in
    record {
      event = event;
      tx_id = tx_id;
      at = sent_at;
      event_of = refl;
      is_there = a.is_there;
      number = a.number;
      hugs_after = a.hugs_after;
      events_after = ap (λ es. es ++ (event ∷ [])) a.same_events;
      queue_after =
          ap
            (command_outbox_enqueue tx_id sent_at h.daemon_id "/v1/hugs/deliver"
              (delivery_fields h seq type_of payload) none
              (some (max h.expires_at sent_at + 3600000)))
            a.same_queue;
    }

-- The artifacts, the responses and the notices play no part.
unfoldable pub Told_beside :
    (h : Hug) (artifacts : List StoredArtifact) (notices : List Notice) (s t : HugStore)
    → Told h (record s { artifacts = artifacts }) t
    → Told h s (record t { notices = notices })
Told_beside h artifacts notices s t w = record {
  event = w.event;
  tx_id = w.tx_id;
  at = w.at;
  event_of = w.event_of;
  is_there = w.is_there;
  number = w.number;
  hugs_after = w.hugs_after;
  events_after = w.events_after;
  queue_after = w.queue_after;
}
