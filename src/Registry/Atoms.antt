-- ===== src/Registry/Atoms.antt =====
-- The atoms of a domain: what `atom_allowed` answers after `add_atom`.
use maelys_datalog.Prelude.{
  true, ◌||◌, List, [], ◌∷◌, ◌++◌, ◌≡◌, arith, Bytes, same_bytes, same_bytes_iff, ok, Bool-cases,
  inl, inr,
}
use maelys_datalog.Registry.{Registry, has_atom, registry_add_atom, registry_atom_allowed}

has_atom-append :
    (as' : List Bytes) (a b : Bytes)
    → has_atom (as' ++ a ∷ []) b ≡ (has_atom as' b || same_bytes a b)
unfolding has_atom
has_atom-append [] a b = ground arith
has_atom-append (x ∷ as') a b = ground (arith, has_atom-append as' a b)

-- An atom that is already there adds nothing.
has_atom_old :
    (as' : List Bytes) (a b : Bytes)
    → has_atom as' a ≡ true
    → (has_atom as' b || same_bytes a b) ≡ has_atom as' b
has_atom_old as' a b h = elim (Bool-cases (same_bytes a b)) [
  | inl e ↦ let same = (same_bytes_iff a b).0 e in ground (arith, rw same at h)
  | inr e ↦ rw e (ground arith)
]

-- After `add_atom` returns OK exactly the new atom and the atoms allowed before are allowed.
pub registry_add_atom-allowed :
    (r : Registry) (a b : Bytes)
    → (registry_add_atom r a).0 ≡ ok
    → registry_atom_allowed (registry_add_atom r a).1 b
      ≡ (registry_atom_allowed r b || same_bytes a b)
unfolding registry_add_atom registry_atom_allowed
registry_add_atom-allowed r a b h =
    ground (arith, has_atom-append r.atoms a b, has_atom_old r.atoms a b, same_bytes_iff a b)
