-- ===== src/Decision/Precedence.antt =====
-- What a decision says of the queries it was made from.
use maelys_datalog.Prelude.{
  Bool, true, false, ◌≡◌, ◌↔◌, ◌⊎◌, arith, ◌||◌, ◌&&◌, some, ℕ, if◌then◌else◌,
}
use maelys_datalog.Decision.{
  Decision, allow, reduced, deny_conflict, decision_from_queries, decision_from_presence,
}

-- What lets a request pass, as it is or reduced.
abbrev pub Permits : Decision → Type 0
Permits d = (d ≡ allow) ⊎ (d ≡ reduced)

-- Of 0 and 1.
abbrev pub flag : Bool → ℕ
flag b = if b then 1 else 0

-- `maelys_datalog_decision_from_queries` permits exactly if nothing denies and something allows or
-- reduces; it reports a conflict exactly if a denial meets one of those; and
-- `maelys_datalog_decision_from_presence` decides the same from 0 and 1.
pub decision_from_queries-Permits :
    (d r a : Bool)
    → (Permits (decision_from_queries d r a) ↔ ((d ≡ false) × ((a || r) ≡ true)))
      × ((decision_from_queries d r a ≡ deny_conflict) ↔ ((d && (a || r)) ≡ true))
      × (decision_from_presence (flag a) (flag r) (flag d) ≡ some (decision_from_queries d r a))
unfolding decision_from_queries decision_from_presence
decision_from_queries-Permits d r a = ground arith
