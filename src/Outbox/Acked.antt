-- ===== src/Outbox/Acked.antt =====
-- Acknowledgments of commands: who may give one, and that a second one changes nothing.
use text.Mathlib.Text.{◌==◌}
use mathlib.Core.Path.{subst}
use cliqhub_core.Prelude.{
  ℕ, ◌<◌, String, Bool, true, false, ◌≡◌, ◌≢◌, refl, ◌⊎◌, sym, ap, ◌∙◌, List, [], ◌∷◌, Option, none,
  some, Bool-cases, inl, inr, arith, is_none,
}
use cliqhub_core.Outbox.{Entry, Store}
use cliqhub_core.Prelude.{update_where}
use cliqhub_core.Outbox.Runs.{fail_refused_execute, fail_named, fail_if_live}
use cliqhub_core.Outbox.Delivery.{on_outbox}
use cliqhub_core.Outbox.Ack.{
  AckBody, AckResult, no_realm, not_in_realm, not_found, done, Reported, find_tx, is_acked, acked,
  unacked_tx, record_ack, after_ack, ack_command, ok, error,
}

find-update :
    (now : ℕ) (b : AckBody) (tx : String) (rows : List Entry) {e : Entry}
    → find_tx tx rows ≡ some e
    → is_none e.acked_at ≡ true
    → find_tx tx (update_where (unacked_tx tx) (acked now b) rows) ≡ some (acked now b e)
unfolding update_where
find-update now b tx [] h k = cc
find-update now b tx (y ∷ ys) {e} h k = elim (Bool-cases (y.tx_id == tx)) [
  | inl t ↦
      let y_is : some y ≡ some e = rw t at h in
      let same : y ≡ e = cc in
      let open_row : is_none y.acked_at ≡ true =
        subst (λ z. is_none z.acked_at ≡ true) (sym same) k in
      rw (t, open_row, t) (ap (λ z. some (acked now b z)) same)
  | inr n ↦
      let rest : find_tx tx ys ≡ some e = rw n at h in rw (n, n) (find-update now b tx ys rest k)
]

after_ack-outbox :
    (now : ℕ) (b : AckBody) (r : Reported) (e : Entry) (s : Store)
    → (after_ack now b r e s).outbox ≡ s.outbox
unfolding fail_refused_execute fail_named fail_if_live
after_ack-outbox now b ok e s = refl
after_ack-outbox now b error e s = ground arith

record_ack-acked :
    (later : ℕ) (b : AckBody) (o : Option Entry) (s : Store) {e : Entry}
    → o ≡ some e
    → (e.daemon_id == b.daemon_id) ≡ true
    → is_acked e.acked_at ≡ true
    → record_ack later b o s ≡ (s, done)
unfolding record_ack
record_ack-acked later b none s h d a = cc
record_ack-acked later b (some y) s h d a = ground arith

-- The acknowledgment counted: a daemon of the token's realm answered, for the first time, a command that is
-- addressed to it, and the answer is written to the rows of that command that had none.
pub record Counted (now : ℕ) (token : Option String) (in_realm : String → String → Bool)
    (b : AckBody) (s : Store) (t : Store × AckResult) : Type 0 where
  pub realm_id : String
  pub command : Entry
  pub token_realm : token ≡ some realm_id
  pub is_member : in_realm realm_id b.daemon_id ≡ true
  pub found : find_tx b.command_tx_id s.outbox ≡ some command
  pub addressed : command.daemon_id ≡ b.daemon_id
  pub unanswered : is_acked command.acked_at ≡ false
  pub written : t.0.outbox ≡ update_where (unacked_tx b.command_tx_id) (acked now b) s.outbox
  pub answer : t.1 ≡ done

-- Why the acknowledgment did not count, and the answer to it.
pub data Ignored (token : Option String) (in_realm : String → String → Bool) (b : AckBody)
    (s : Store) (answer : AckResult) : Type 0 where
  without_realm : token ≡ none → answer ≡ no_realm → Ignored token in_realm b s answer
  outside :
      (realm_id : String)
      → token ≡ some realm_id
      → in_realm realm_id b.daemon_id ≡ false
      → answer ≡ not_in_realm
      → Ignored token in_realm b s answer
  unknown :
      find_tx b.command_tx_id s.outbox ≡ none → answer ≡ done → Ignored token in_realm b s answer
  elsewhere :
      (command : Entry)
      → find_tx b.command_tx_id s.outbox ≡ some command
      → command.daemon_id ≢ b.daemon_id
      → answer ≡ not_found
      → Ignored token in_realm b s answer
  repeated :
      (command : Entry)
      → find_tx b.command_tx_id s.outbox ≡ some command
      → is_acked command.acked_at ≡ true
      → answer ≡ done
      → Ignored token in_realm b s answer

abbrev pub AckOutcome :
    ℕ → Option String → (String → String → Bool) → AckBody → Store → Store × AckResult → Type 0
AckOutcome now token in_realm b s t =
    ((t.0 ≡ s) × Ignored token in_realm b s t.1) ⊎ Counted now token in_realm b s t

module _ (realm_id : String) (in_realm : String → String → Bool) (b : AckBody) (s : Store)
    {e : Entry} (member : in_realm realm_id b.daemon_id ≡ true)
    (found : find_tx b.command_tx_id s.outbox ≡ some e) where
  abbrev after_first : ℕ → Store
  after_first now =
      after_ack now b b.status e
        (on_outbox (update_where (unacked_tx b.command_tx_id) (acked now b)) s)

  first-ack :
      (now : ℕ)
      → (e.daemon_id == b.daemon_id) ≡ true
      → is_acked e.acked_at ≡ false
      → ack_command now (some realm_id) in_realm b s ≡ (after_first now, done)
  unfolding ack_command record_ack
  first-ack now mine fresh = rw (member, found, mine, fresh) refl

  find-first :
      (now : ℕ)
      → is_none e.acked_at ≡ true
      → find_tx b.command_tx_id (after_first now).outbox ≡ some (acked now b e)
  find-first now open_row =
      ap (find_tx b.command_tx_id) (
        after_ack-outbox now b b.status e
          (on_outbox (update_where (unacked_tx b.command_tx_id) (acked now b)) s))
      ∙ find-update now b b.command_tx_id s.outbox found open_row

  second-ack :
      (now later : ℕ) (c : AckBody)
      → 0 < now
      → (e.daemon_id == b.daemon_id) ≡ true
      → is_none e.acked_at ≡ true
      → c.command_tx_id ≡ b.command_tx_id
      → c.daemon_id ≡ b.daemon_id
      → ack_command later (some realm_id) in_realm c (after_first now) ≡ (after_first now, done)
  unfolding ack_command
  second-ack now later c pos mine open_row same_tx same_daemon =
      let its : in_realm realm_id c.daemon_id ≡ true = rw same_daemon member in
      rw its (
        record_ack-acked later c (find_tx c.command_tx_id (after_first now).outbox)
          (after_first now)
          (ap (λ t. find_tx t (after_first now).outbox) same_tx ∙ find-first now open_row)
          (ap (λ t. e.daemon_id == t) same_daemon ∙ mine) (ground arith))

  -- Once the daemon of a command has acknowledged it, at a time other than 0, a later answer of that
  -- daemon to the command is accepted and changes nothing, whatever it reports.
  pub ack_command_twice :
      (now later : ℕ) (c : AckBody)
      → 0 < now
      → (e.daemon_id == b.daemon_id) ≡ true
      → e.acked_at ≡ none
      → c.command_tx_id ≡ b.command_tx_id
      → c.daemon_id ≡ b.daemon_id
      → ack_command later
          (some realm_id)
          in_realm
          c
          (ack_command now (some realm_id) in_realm b s).0
        ≡ ((ack_command now (some realm_id) in_realm b s).0, done)
  ack_command_twice now later c pos mine open_row same_tx same_daemon =
      let first = first-ack now mine (ground arith) in
      subst (λ t. ack_command later (some realm_id) in_realm c t.0 ≡ (t.0, done)) (sym first)
        (second-ack now later c pos mine (ground arith) same_tx same_daemon)
