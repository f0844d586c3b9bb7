-- ===== src/Provision/Named.antt =====
-- The ids and statuses of the tasks that the backend, the cache and a creation give.
use learn_pg.Prelude.{
  ℕ, ◌≡◌, refl, ap, subst, Bool, true, false, ◌&&◌, Option, none, some, List, [], ◌∷◌, String,
  head?, get_or, if◌then◌else◌, ◌==◌, string_eq, beq-ne, NonEmpty, ◌++ₛ◌, show, Bool-cases, inl,
  inr, arith,
}
use learn_pg.Provision.Backend.{
  Reply, TaskBody, TaskState, RecentTask, text_or, is_given, get_provision_task,
  list_provision_tasks, Provisioned,
}
use learn_pg.Provision.Task.{
  ProvisionTask, TaskJson, checked_task, load_provision_task_cache, task_of_answer, recovered_task,
}

-- The task has an id and a status.
abbrev pub IsNamed : ProvisionTask → Type 0
IsNamed t = (is_given (some t.task_id) ≡ true) × (is_given (some t.status) ≡ true)

abbrev pub AllNamed : Option ProvisionTask → Type 0
AllNamed none = Unit {0}
AllNamed (some t) = IsNamed t

get_or-given : (o : Option String) → is_given o ≡ true → is_given (some (get_or o "")) ≡ true
get_or-given none h = absurd (cc)
get_or-given (some t) h = h

-- What is loaded has an id and a status.
checked_task-AllNamed : (o : Option TaskBody) → AllNamed (checked_task o)
checked_task-AllNamed none = tt
checked_task-AllNamed (some t) = elim (Bool-cases (is_given t.task_id && is_given t.status)) [
  | inl both ↦
      let id : is_given t.task_id ≡ true = ground (arith, both) in
      let status : is_given t.status ≡ true = ground (arith, both) in
      rw both (get_or-given t.task_id id, get_or-given t.status status)
  | inr missing ↦ rw missing tt
]

pub load_provision_task_cache-AllNamed :
    (j : TaskJson) (raw : Option String) → AllNamed (load_provision_task_cache j raw)
unfolding load_provision_task_cache
load_provision_task_cache-AllNamed j none = tt
load_provision_task_cache-AllNamed j (some raw) = elim (Bool-cases (raw == "")) [
  | inl blank ↦ rw blank tt
  | inr full ↦ rw full (checked_task-AllNamed (j.parse raw))
]

NonEmpty-given : (t : String) → NonEmpty t → is_given (some t) ≡ true
NonEmpty-given t h = ap (λ b. if b then false else true) (beq-ne t "" (λ e. subst NonEmpty e h))

text_or-given :
    (o : Option String) (d : String)
    → is_given (some d) ≡ true
    → is_given (some (text_or o d)) ≡ true
text_or-given none d h = h
text_or-given (some t) d h = ground (arith, h)

abbrev pub HasStatus : Option TaskState → Type 0
HasStatus none = Unit {0}
HasStatus (some t) = is_given (some t.status) ≡ true

pub get_provision_task-HasStatus :
    (r : Reply (Bool × Option TaskBody)) → HasStatus (get_provision_task r)
unfolding get_provision_task
get_provision_task-HasStatus Reply.rejected = tt
get_provision_task-HasStatus (Reply.refused status) = tt
get_provision_task-HasStatus (Reply.replied (true, some t)) = text_or-given t.status "unknown" refl
get_provision_task-HasStatus (Reply.replied (true, none)) = tt
get_provision_task-HasStatus (Reply.replied (false, o)) = tt

abbrev pub FirstNamed : Option RecentTask → Type 0
FirstNamed none = Unit {0}
FirstNamed (some t) = IsNamed (recovered_task t)

pub list_provision_tasks-FirstNamed :
    (r : Reply (Bool × Option (List TaskBody))) → FirstNamed (head? (list_provision_tasks r))
unfolding list_provision_tasks
list_provision_tasks-FirstNamed Reply.rejected = tt
list_provision_tasks-FirstNamed (Reply.refused status) = tt
list_provision_tasks-FirstNamed (Reply.replied (false, o)) = tt
list_provision_tasks-FirstNamed (Reply.replied (true, none)) = tt
list_provision_tasks-FirstNamed (Reply.replied (true, some [])) = tt
list_provision_tasks-FirstNamed (Reply.replied (true, some (t ∷ ts))) =
    (text_or-given t.task_id "-" refl, text_or-given t.status "unknown" refl)

pub task_of_answer-AllNamed :
    (now : ℕ) (project_id : String) (p : Provisioned) → AllNamed (task_of_answer now project_id p)
unfolding task_of_answer
task_of_answer-AllNamed now project_id p = elim (Bool-cases (is_given p.task_id)) [
  | inl given ↦ rw given (get_or-given p.task_id given, refl)
  | inr missing ↦ elim (Bool-cases p.ok) [
    | inl ok ↦ rw (missing, ok) tt
    | inr bad ↦ rw (missing, bad) (NonEmpty-given ("local-" ++ₛ show now) tt, refl)
  ]
]
