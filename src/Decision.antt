-- ===== src/Decision.antt =====
-- The decision, src/core/maelys_datalog_decision.c.
-- A query result is its `derived` flag, the only field that is read.
pub mod Precedence
use Prim.Native.String.{String}
use maelys_datalog.Prelude.{
  Bool, ◌&&◌, ◌||◌, if◌then◌else◌, ℕ, leb, ◌==◌, not, Rc, ok, invalid_argument, Option, none, some,
}

pub data Decision : Type 0 where
  allow reduced deny deny_default deny_conflict : Decision

unfoldable pub decision_from_queries : Bool → Bool → Bool → Decision
decision_from_queries deny_derived reduce_derived allow_derived =
    if deny_derived && (allow_derived || reduce_derived)
    then deny_conflict
    else if deny_derived
    then deny
    else if reduce_derived
    then reduced
    else if allow_derived
    then allow
    else deny_default

-- An `int` that is 0 or 1; a negative one is refused like every other.
abbrev pub is_flag : ℕ → Bool
is_flag n = n == 0 || n == 1

-- None stands for the invalid argument, where `*out` is not written.
unfoldable pub decision_from_presence : ℕ → ℕ → ℕ → Option Decision
decision_from_presence allow_flag reduce_flag deny_flag =
    if not (is_flag allow_flag) || not (is_flag reduce_flag) || not (is_flag deny_flag)
    then none
    else some (
        if not (deny_flag == 0)
        then (if not (allow_flag == 0) || not (reduce_flag == 0) then deny_conflict else deny)
        else if not (reduce_flag == 0)
        then reduced
        else if not (allow_flag == 0)
        then allow
        else deny_default)

unfoldable pub decision_name : Decision → String
decision_name allow = "allow"
decision_name reduced = "reduced"
decision_name deny_default = "deny_default"
decision_name deny_conflict = "deny_conflict"
decision_name deny = "deny"
