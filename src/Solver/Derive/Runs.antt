-- ===== src/Solver/Derive/Runs.antt =====
-- What a part of the derivation adds to the merge window, and how the parts compose.
use maelys_datalog.Prelude.{
  [], ◌+◌, ◌≤◌, ◌∙◌, length, ◌<◌, true, false, ◌≡◌, ◌⊎◌, inl, inr, refl, sym, In, subst,
}
use maelys_datalog.Fact.{Fact}
use maelys_datalog.Bounds.{max_predicates}
use maelys_datalog.Solver.{View, Work}
use maelys_datalog.Solver.Matching.{fact_structurally_valid}
use maelys_datalog.Solver.Derive.{Answer, and_next, fact_in_base}

-- Where a derived fact is found afterwards.
abbrev pub Present : View → Work → Fact → Type 0
Present v w f = (fact_in_base v f ≡ true) ⊎ (In f v.accepted ⊎ In f w.merged)

-- A fact that the append lets through.
abbrev pub IsKnown : View → Fact → Type 0
IsKnown v f =
    (fact_structurally_valid v.the_ruleset.registry f ≡ true) × (f.predicate_id < max_predicates)

-- While the derived facts are marked as sorted there are none, and they have room.
pub record IsMarked (v : View) (w : Work) : Type 0 where
  pub blank : w.idb_sorted ≡ true → (v.accepted ≡ []) × (w.merged ≡ [])
  pub room : length v.accepted + length w.merged ≤ v.idb_capacity

-- The merge window and the mark are the same.
abbrev pub IsSameWindow : Work → Work → Type 0
IsSameWindow w x = (x.merged ≡ w.merged) × (x.idb_sorted ≡ w.idb_sorted)

pub IsMarked-same : (v : View) (w x : Work) → IsSameWindow w x → IsMarked v w → IsMarked v x
IsMarked-same v w x (e, s) h = record {
  blank = λ q. let (a, b) = h.blank (sym s ∙ q) in (a, e ∙ b);
  room = subst (λ fs. length v.accepted + length fs ≤ v.idb_capacity) (sym e) h.room;
}

-- From `w` on, the answer adds facts with the property only, and unless it is a failure all those
-- with the property are then present.
pub record Run (v : View) (P : Fact → Type 0) (w : Work) (a : Answer) : Type 0 where
  pub grows : (f : Fact) → In f w.merged → In f a.1.merged
  pub sound : (f : Fact) → In f a.1.merged → In f w.merged ⊎ P f
  pub known : (f : Fact) → In f a.1.merged → In f w.merged ⊎ IsKnown v f
  pub complete : a.0 ≡ true → (f : Fact) → P f → Present v a.1 f
  pub keeps : IsMarked v w → IsMarked v a.1

pub Present-grows :
    (v : View) (w x : Work) (f : Fact)
    → (In f w.merged → In f x.merged)
    → Present v w f
    → Present v x f
Present-grows v w x f g (inl h) = inl h
Present-grows v w x f g (inr (inl h)) = inr (inl h)
Present-grows v w x f g (inr (inr h)) = inr (inr (g h))

pub Run-fails :
    (v : View) (P : Fact → Type 0) (w x : Work) → IsSameWindow w x → Run v P w (false, x)
Run-fails v P w x e = record {
  grows = λ f m. subst (In f) (sym e.0) m;
  sound = λ f m. inl (subst (In f) e.0 m);
  known = λ f m. inl (subst (In f) e.0 m);
  complete = λ h. cc;
  keeps = λ k. IsMarked-same v w x e k;
}

pub Run-skips :
    (v : View) (P : Fact → Type 0) (w : Work) → ((f : Fact) → P f → ⊥) → Run v P w (true, w)
Run-skips v P w none_of = record {
  grows = λ f m. m;
  sound = λ f m. inl m;
  known = λ f m. inl m;
  complete = λ h f p. absurd (none_of f p);
  keeps = λ k. k;
}

pub Run-map :
    (v : View) (P Q : Fact → Type 0) (w : Work) (a : Answer)
    → ((f : Fact) → P f → Q f)
    → ((f : Fact) → Q f → P f)
    → Run v P w a
    → Run v Q w a
Run-map v P Q w a to from r = record {
  grows = r.grows;
  sound = λ f m. elim (r.sound f m) [ inl h ↦ inl h | inr p ↦ inr (to f p) ];
  known = r.known;
  complete = λ h f q. r.complete h f (from f q);
  keeps = r.keeps;
}

pub Run-and_next :
    (v : View) (P Q : Fact → Type 0) (w : Work) (a : Answer) (k : Work → Answer)
    → Run v P w a
    → ((x : Work) → Run v Q x (k x))
    → Run v (λ f. P f ⊎ Q f) w (and_next a k)
unfolding and_next
Run-and_next v P Q w (false, x) k r rest = record {
  grows = r.grows;
  sound = λ f m. elim (r.sound f m) [ inl h ↦ inl h | inr p ↦ inr (inl p) ];
  known = r.known;
  complete = λ h. cc;
  keeps = r.keeps;
}
Run-and_next v P Q w (true, x) k r rest =
    let s = rest x in
    record {
      grows = λ f m. s.grows f (r.grows f m);
      sound = λ f m. elim (s.sound f m) [
        | inr q ↦ inr (inr q)
        | inl n ↦ elim (r.sound f n) [ inl h ↦ inl h | inr p ↦ inr (inl p) ]
      ];
      known = λ f m. elim (s.known f m) [ inr q ↦ inr q | inl n ↦ r.known f n ];
      complete = λ h f pq. elim pq [
        | inl p ↦ Present-grows v x ((k x).1) f (s.grows f) (r.complete refl f p)
        | inr q ↦ s.complete h f q
      ];
      keeps = λ k. s.keeps (r.keeps k);
    }
