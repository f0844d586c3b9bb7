-- ===== src/Connection/Profiles.antt =====
-- What saving a profile does to the list of profiles.
use learn_pg.Prelude.{
  ◌≡◌, refl, ap, subst, ◌∙◌, beq→eq, true, false, Option, some, List, [], ◌∷◌, ◌++◌, map, String,
  any, find, if◌then◌else◌, ◌==◌, string_eq, beq_refl, Bool-cases, inl, inr, arith,
}
use learn_pg.Connection.{ConnectionProfile, upsert}

abbrev found : String → List ConnectionProfile → Option ConnectionProfile
found id ps = find (λ q. q.id == id) ps

module _ (p : ConnectionProfile) where
  abbrev replace : ConnectionProfile → ConnectionProfile
  replace q = if q.id == p.id then p else q

  found-replaced :
      (ps : List ConnectionProfile)
      → any (λ q. q.id == p.id) ps ≡ true
      → found p.id (map replace ps) ≡ some p
  found-replaced [] h = absurd (cc)
  found-replaced (q ∷ ps) h = elim (Bool-cases (q.id == p.id)) [
    | inl hit ↦ rw (hit, beq_refl p.id) refl
    | inr miss ↦ rw (miss, miss) (found-replaced ps (ground (arith, h, miss)))
  ]

  found-replaced_other :
      (id : String) (ps : List ConnectionProfile)
      → (p.id == id) ≡ false
      → found id (map replace ps) ≡ found id ps
  found-replaced_other id [] h = refl
  found-replaced_other id (q ∷ ps) h = elim (Bool-cases (q.id == p.id)) [
    | inl hit ↦
        let same : (q.id == id) ≡ false = ap (λ i. i == id) (beq→eq q.id p.id hit) ∙ h in
        rw (hit, h, same) (found-replaced_other id ps h)
    | inr miss ↦ rw miss (ap (λ r. if q.id == id then some q else r) (found-replaced_other id ps h))
  ]

  found-added :
      (ps : List ConnectionProfile)
      → any (λ q. q.id == p.id) ps ≡ false
      → found p.id (ps ++ p ∷ []) ≡ some p
  found-added [] h = rw (beq_refl p.id) refl
  found-added (q ∷ ps) h =
      ground (arith, h, λ (r : any (λ q. q.id == p.id) ps ≡ false). found-added ps r)

  found-added_other :
      (id : String) (ps : List ConnectionProfile)
      → (p.id == id) ≡ false
      → found id (ps ++ p ∷ []) ≡ found id ps
  found-added_other id [] h = rw h refl
  found-added_other id (q ∷ ps) h =
      ap (λ r. if q.id == id then some q else r) (found-added_other id ps h)

  -- A profile that is saved is found under its id, and what is found under another id stays as it was.
  pub find-upsert :
      (id : String) (ps : List ConnectionProfile)
      → found id (upsert p ps) ≡ (if p.id == id then some p else found id ps)
  unfolding upsert
  find-upsert id ps = elim (Bool-cases (p.id == id)) [
    | inl hit ↦ rw hit (subst (λ i. found i (upsert p ps) ≡ some p) (beq→eq p.id id hit) own)
    | inr miss ↦ elim (Bool-cases (any (λ q. q.id == p.id) ps)) [
      | inl old ↦ rw (miss, old) (found-replaced_other id ps miss)
      | inr new ↦ rw (miss, new) (found-added_other id ps miss)
    ]
  ]
    where
      own : found p.id (upsert p ps) ≡ some p
      own = elim (Bool-cases (any (λ q. q.id == p.id) ps)) [
        | inl old ↦ rw old (found-replaced ps old)
        | inr new ↦ rw new (found-added ps new)
      ]
