-- ===== src/ComponentHome/Toggles.antt =====
-- Clicks on the rows of the tree of a component page.
use learn_pg.Prelude.{
  ◌≡◌, ◌∙◌, refl, ap, ℕ, zero, suc, Bool, true, false, not, ◌||◌, Option, none, some, List, [], ◌∷◌,
  String, any, get_or, if◌then◌else◌, ◌==◌, string_eq, nat_eq, arith, Bool-cases, inl, inr, beq→eq,
}
use learn_pg.Prelude.Map.{get, set, get-set}
use learn_pg.Workspace.Types.{Project}
use learn_pg.ComponentHome.{TreeState, open_all, expand_project, toggle, is_not_false, is_open}

-- Clicks on rows, one after the other.
abbrev pub toggles : List String → TreeState → TreeState
toggles [] e = e
toggles (id ∷ ids) e = toggles ids (toggle id e)

-- How often an id is in a list.
abbrev pub count : String → List String → ℕ
count id [] = 0
count id (x ∷ xs) = let n = count id xs in if x == id then suc n else n

abbrev pub even : ℕ → Bool
even zero = true
even (suc n) = not (even n)

-- Whether a component or a cluster of the project has the id.
abbrev pub has_id : String → Project → Bool
has_id id p = any (λ c. c.id == id) p.clusters || any (λ c. c.id == id) p.components

get-open_all :
    {A : Type 0} (id_of : A → String) (id : String) (xs : List A) (e : TreeState)
    → get id (open_all id_of xs e) ≡ (if any (λ x. id_of x == id) xs then some true else get id e)
unfolding open_all
get-open_all id_of id [] e = refl
get-open_all id_of id (x ∷ xs) e =
    ground (arith, get-open_all id_of id xs (set (id_of x) true e), get-set (id_of x) id true e)

get-expand_project :
    (id : String) (p : Project) (e : TreeState)
    → get id (expand_project (some p) e) ≡ (if has_id id p then some true else none)
unfolding expand_project get
get-expand_project id p e = ground (
  arith,
  get-open_all (λ c. c.id) id p.clusters (open_all (λ c. c.id) p.components []),
  get-open_all (λ c. c.id) id p.components [],
)

-- What some clicks make of a row's entry.
abbrev turned : ℕ → Option Bool → Option Bool
turned zero o = o
turned (suc n) o = turned n (some (not (get_or o false)))

get-toggles :
    (id : String) (ids : List String) (e : TreeState)
    → get id (toggles ids e) ≡ turned (count id ids) (get id e)
unfolding toggle
get-toggles id [] e = refl
get-toggles id (x ∷ ids) e =
    get-toggles id ids (toggle x e)
    ∙ ap (turned (count id ids)) (get-set x id (not (get_or (get x e) false)) e)
    ∙ elim (Bool-cases (x == id)) [
      | inl hit ↦
          let same : x ≡ id = beq→eq x id hit in
          rw hit (ap (λ k. turned (count id ids) (some (not (get_or (get k e) false)))) same)
      | inr miss ↦ rw miss refl
    ]

turned-even : (n : ℕ) (b : Bool) → turned n (some b) ≡ some (if even n then b else not b)
turned-even zero b = refl
turned-even (suc n) true = turned-even n false ∙ ground arith
turned-even (suc n) false = turned-even n true ∙ ground arith

-- After a page is opened for a project, a row of a component or a cluster that the project had then is
-- open after an even number of clicks on it; a row that was added since is open until the first click
-- and after it, and then after an odd number of clicks.
pub is_open-toggles :
    (id : String) (ids : List String) (p : Project) (e : TreeState)
    → is_open id (toggles ids (expand_project (some p) e)) ≡ (
        if has_id id p
        then even (count id ids)
        else (count id ids == 0) || not (even (count id ids)))
unfolding is_open
is_open-toggles id ids p e =
    ap is_not_false (
      get-toggles id ids (expand_project (some p) e)
      ∙ ap (turned (count id ids)) (get-expand_project id p e))
    ∙ elim (Bool-cases (has_id id p)) [
      | inl old ↦ rw old (open_after (count id ids))
      | inr new ↦ rw new (added (count id ids))
    ]
  where
    open_after : (n : ℕ) → is_not_false (turned n (some true)) ≡ even n
    open_after n = ap is_not_false (turned-even n true) ∙ ground arith

    added : (n : ℕ) → is_not_false (turned n none) ≡ ((n == 0) || not (even n))
    added zero = refl
    added (suc n) = open_after n ∙ ground arith
