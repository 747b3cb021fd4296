-- ===== src/Hugs/CatchUp.antt =====
-- hugs.service.ts, `HugsService.get_events`: what a daemon missed.
use text.Mathlib.Text.{◌==◌}
use Prim.Native.Nat.{zero, suc}
use cliqhub_core.Prelude.{
  ℕ, String, Bool, ◌&&◌, ◌||◌, List, [], ◌∷◌, map, filter, ltb, leb, length, any, if◌then◌else◌,
}
use cliqhub_core.Hugs.{HugStatus, Hug, HugEventRow, HugStore}

pub record Cursor : Type 0 where
  pub hug_id : String
  pub after_seq : ℕ

-- `new Map(cursors).get(id) ?? 0`: the last cursor of the hug counts.
unfoldable pub after_of : List Cursor → String → ℕ
after_of cs id = last_of cs 0
  where
    last_of : List Cursor → ℕ → ℕ
    last_of [] n = n
    last_of (c ∷ rest) n = last_of rest (if c.hug_id == id then c.after_seq else n)

abbrev pub is_asked : List Cursor → String → Bool
is_asked cs id = any (λ c. c.hug_id == id) cs

abbrev pub is_own : String → List Cursor → Hug → Bool
is_own daemon_id cs h = is_asked cs h.id && (h.daemon_id == daemon_id)

abbrev pub is_missed : List Cursor → List Hug → HugEventRow → Bool
is_missed cs own e = any (λ h. h.id == e.hug_id) own && ltb (after_of cs e.hug_id) e.seq

-- `ORDER BY hug_id, seq`; the order of the ids is the database's.
abbrev pub comes_before : (String → String → Bool) → HugEventRow → HugEventRow → Bool
comes_before less a b = less a.hug_id b.hug_id || (a.hug_id == b.hug_id) && leb a.seq b.seq

unfoldable pub insert_event :
    (String → String → Bool) → HugEventRow → List HugEventRow → List HugEventRow
insert_event less e [] = e ∷ []
insert_event less e (x ∷ xs) =
    let rest = insert_event less e xs in if comes_before less e x then e ∷ x ∷ xs else x ∷ rest

unfoldable pub in_order : (String → String → Bool) → List HugEventRow → List HugEventRow
unfolding insert_event
in_order less [] = []
in_order less (e ∷ es) = insert_event less e (in_order less es)

abbrev pub limit_events : ℕ → List HugEventRow → List HugEventRow
limit_events zero es = []
limit_events (suc n) [] = []
limit_events (suc n) (e ∷ es) = e ∷ limit_events n es

pub record HugState : Type 0 where
  pub hug_id : String
  pub status : HugStatus
  pub last_seq : ℕ

pub record MissedEvents : Type 0 where
  pub events : List HugEventRow
  pub hugs : List HugState
  pub has_more : Bool

abbrev state_of : Hug → HugState
state_of h = record { hug_id = h.id; status = h.status; last_seq = h.last_seq }

unfoldable pub get_events :
    (String → String → Bool) → String → List Cursor → HugStore → MissedEvents
unfolding after_of in_order
get_events less daemon_id cs s =
    let own = filter (is_own daemon_id cs) s.hugs in
    let rows = limit_events 501 (in_order less (filter (is_missed cs own) s.hug_events)) in
    record {
      events = limit_events 500 rows;
      hugs = map state_of own;
      has_more = ltb 500 (length rows);
    }
