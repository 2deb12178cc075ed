-- ===== src/Strata.antt =====
-- Stratification, `assign_strata_impl` of src/compiler/maelys_datalog_validate.c.
-- A literal and a rule have the fields that stratification reads.
pub mod Sound
pub mod Least
use maelys_datalog.Prelude.{
  ℕ, zero, suc, ◌+◌, ◌%◌, ◌^◌, Bool, true, false, not, ◌&&◌, List, [], ◌∷◌, Option, none, some, ltb,
  leb, ◌==◌, if◌then◌else◌, Rc, ok, invalid_field, Checked, refused, passed,
}
use maelys_datalog.Bounds.{max_predicates, max_strata}
use maelys_datalog.Registry.{Registry, Entry, registry_get}

-- `maelys_datalog_literal_kind_t`.
pub data LiteralKind : Type 0 where
  atom comparison negated_atom filter count min max sum : LiteralKind

abbrev pub is_aggregate : LiteralKind → Bool
is_aggregate kind = elim kind [ count ↦ true | min ↦ true | max ↦ true | sum ↦ true | _ ↦ false ]

pub record Literal : Type 0 where
  pub kind : LiteralKind
  pub predicate_id : ℕ

pub record Rule : Type 0 where
  pub head : ℕ
  pub body : List Literal

pub record Ruleset : Type 0 where
  pub registry : Registry
  pub rules : List Rule
  pub negation_supported : Bool
  pub aggregates_supported : Bool
  pub strata : ℕ → ℕ
  pub max_stratum : ℕ
  pub strata_assigned : Bool

-- What the two diagnostics name: the predicate that a cycle leads to, if it is declared, or the
-- number of strata that would be needed.
pub data StrataDiag : Type 0 where
  stratification_cycle : Option Entry → StrataDiag
  stratum_limit : ℕ → StrataDiag

-- The literals that the loop does not pass over, and those that need a higher stratum.
unfoldable pub is_dependency : LiteralKind → Bool
is_dependency kind = elim kind [ atom ↦ true | negated_atom ↦ true | k ↦ is_aggregate k ]

unfoldable pub is_strict : LiteralKind → Bool
is_strict kind = elim kind [ negated_atom ↦ true | k ↦ is_aggregate k ]

abbrev pub update : (ℕ → ℕ) → ℕ → ℕ → ℕ → ℕ
update f k v i = if k == i then v else f i

-- `ns`, a `uint32_t`.
unfoldable pub needed : (ℕ → ℕ) → Literal → ℕ
needed strata l =
    if is_strict l.kind then (strata l.predicate_id + 1) % 2 ^ 32 else strata l.predicate_id

-- One round of the loop over a body, on `s` and `predecessor`.
unfoldable pub literal_step : (ℕ → ℕ) → ℕ → Literal → ℕ → (ℕ → ℕ) → Checked (ℕ × (ℕ → ℕ))
literal_step strata hpid l s predecessor =
    if not (is_dependency l.kind)
    then passed (s, predecessor)
    else if leb max_predicates l.predicate_id
    then refused invalid_field
    else if ltb s (needed strata l)
    then passed (needed strata l, update predecessor hpid l.predicate_id)
    else passed (s, predecessor)

unfoldable pub body_loop : (ℕ → ℕ) → ℕ → List Literal → ℕ → (ℕ → ℕ) → Checked (ℕ × (ℕ → ℕ))
body_loop strata hpid [] s predecessor = passed (s, predecessor)
body_loop strata hpid (l ∷ ls) s predecessor = elim (literal_step strata hpid l s predecessor) [
  | refused rc ↦ refused rc
  | passed r ↦ body_loop strata hpid ls (r.0) (r.1)
]

-- The variables of the outer loop.
pub record Pass : Type 0 where
  pub strata : ℕ → ℕ
  pub predecessor : ℕ → ℕ
  pub updated : ℕ
  pub changed : Bool

unfoldable pub raise : Pass → ℕ → ℕ → (ℕ → ℕ) → Pass
raise p hpid s predecessor =
    if ltb (p.strata hpid) s
    then record {
      strata = update p.strata hpid s;
      predecessor = predecessor;
      updated = hpid;
      changed = true;
    }
    else record {
      strata = p.strata;
      predecessor = predecessor;
      updated = p.updated;
      changed = p.changed;
    }

unfoldable pub rule_step : Pass → Rule → Rc × Pass
rule_step p rule =
    if leb max_predicates rule.head
    then (invalid_field, p)
    else elim (body_loop p.strata rule.head rule.body (p.strata rule.head) p.predecessor) [
      | refused rc ↦ (rc, p)
      | passed r ↦ (ok, raise p rule.head (r.0) (r.1))
    ]

-- The `for` loop over the rules.
unfoldable pub rules_loop : Pass → List Rule → Rc × Pass
rules_loop p [] = (ok, p)
rules_loop p (rule ∷ rules) =
    let (rc, p') = rule_step p rule in elim rc [ ok ↦ rules_loop p' rules | failed ↦ (failed, p') ]

abbrev pub unchanged : Pass → Pass
unchanged p = record {
  strata = p.strata;
  predecessor = p.predecessor;
  updated = p.updated;
  changed = false;
}

-- `while (changed && iters <= MAELYS_DATALOG_MAX_PREDICATES)`, with the iterations left.
unfoldable pub passes_loop : ℕ → Pass → List Rule → Rc × Pass
passes_loop zero p rules = (ok, p)
passes_loop (suc left) p rules = elim p.changed [
  | false ↦ (ok, p)
  | true ↦
      let (rc, p') = rules_loop (unchanged p) rules in
      elim rc [ ok ↦ passes_loop left p' rules | failed ↦ (failed, p') ]
]

-- `updated = predecessor[updated]`, `n` times.
abbrev pub follow : ℕ → (ℕ → ℕ) → ℕ → ℕ
follow zero predecessor pid = pid
follow (suc n) predecessor pid = follow n predecessor (predecessor pid)

-- The largest of the first `n` strata.
unfoldable pub max_of : ℕ → (ℕ → ℕ) → ℕ
max_of zero strata = 0
max_of (suc n) strata = let rest = max_of n strata in if ltb rest (strata n) then strata n else rest

abbrev pub first_pass : Pass
first_pass = record { strata = λ _. 0; predecessor = λ _. 0; updated = 0; changed = true }

abbrev pub with_strata : Ruleset → (ℕ → ℕ) → ℕ → Bool → Ruleset
with_strata r strata top assigned = record r {
  strata = strata;
  max_stratum = top;
  strata_assigned = assigned;
}

-- What follows the loop.
unfoldable pub finish : Ruleset → Rc → Pass → Rc × Ruleset × Option StrataDiag
finish r ok p =
    if p.changed
    then (
      invalid_field,
      with_strata r p.strata 0 false,
      some (
          stratification_cycle
            (registry_get r.registry (follow max_predicates p.predecessor p.updated))),
    )
    else if leb max_strata (max_of max_predicates p.strata)
    then (
      invalid_field,
      with_strata r p.strata 0 false,
      some (stratum_limit (max_of max_predicates p.strata + 1)),
    )
    else (ok, with_strata r p.strata (max_of max_predicates p.strata) true, none)
finish r failed p = (failed, with_strata r p.strata 0 false, none)

-- The code, the ruleset and what the diagnostic names.
unfoldable pub assign_strata : Ruleset → Rc × Ruleset × Option StrataDiag
assign_strata r =
    if not r.negation_supported && not r.aggregates_supported
    then (ok, r, none)
    else let (rc, p) = passes_loop (suc max_predicates) first_pass r.rules in finish r rc p
