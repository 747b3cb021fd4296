-- ===== src/Hugs/Remind.antt =====
-- hugs.service.ts, `next_remind_at`.
use Prim.Native.Nat.{min}
use cliqhub_core.Prelude.{
  ℕ, ◌+◌, ◌*◌, List, [], ◌∷◌, ◌++◌, Option, none, some, map, filter, ltb, eqb, if◌then◌else◌,
}
use cliqhub_core.Hugs.{Reminders}

abbrev pub or_time : Option ℕ → ℕ → ℕ
or_time none t = t
or_time (some s) t = s

abbrev pub or_least : ℕ → Option ℕ → ℕ
or_least x none = x
or_least x (some y) = min x y

-- `Math.min(...xs)` of a list that is not empty.
abbrev pub smallest : List ℕ → Option ℕ
smallest [] = none
smallest (x ∷ xs) = some (or_least x (smallest xs))

abbrev pub at_times : ℕ → ℕ → List ℕ → List ℕ
at_times created_at since at_min = filter (ltb since) (map (λ m. created_at + m * 60000) at_min)

-- `every_min` of 0 counts as none.
abbrev pub every_time : ℕ → Option ℕ → List ℕ
every_time since none = []
every_time since (some m) = if eqb m 0 then [] else (since + m * 60000) ∷ []

abbrev pub before : ℕ → Option ℕ → Option ℕ
before expires_at none = none
before expires_at (some at) = if ltb at expires_at then some at else none

unfoldable pub next_remind_at : ℕ → Option Reminders → Option ℕ → ℕ → Option ℕ
next_remind_at created_at none last_reminded_at expires_at = none
next_remind_at created_at (some r) last_reminded_at expires_at =
    let since = or_time last_reminded_at created_at in
    before expires_at
      (smallest (at_times created_at since r.at_min ++ every_time since r.every_min))
