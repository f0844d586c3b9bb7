-- ===== src/Provision/Tests/Codec.antt =====
-- An encoding of tasks as text that is read back, in place of `JSON`: a text for each member, with a
-- letter before every character and another at its end.
use Prim.Native.Char.{code}
use learn_pg.Prelude.{
  ℕ, zero, suc, ◌≡◌, refl, ap, ◌∙◌, subst, Option, none, some, List, [], ◌∷◌, String, length,
  if◌then◌else◌, ◌==◌, nat_eq, ◌++ₛ◌, NonEmpty,
}
use learn_pg.Prelude.Number.{codes}
use learn_pg.Provision.Backend.{TaskBody}
use learn_pg.Provision.Task.{ProvisionTask, TaskJson, written}

put_text : String → String → String
put_text String.[] rest = "e" ++ₛ rest
put_text (String.◌∷◌ c s) rest = "c" ++ₛ String.◌∷◌ c (put_text s rest)

abbrev in_front_of : Prim.Native.Char.Char → Option (String × String) → Option (String × String)
in_front_of c none = none
in_front_of c (some (t, rest)) = some (String.◌∷◌ c t, rest)

take_text : String → Option (String × String)
take_text String.[] = none
take_text (String.◌∷◌ d String.[]) = if code d == b'e' then some ("", "") else none
take_text (String.◌∷◌ d (String.◌∷◌ c s)) =
    let more = in_front_of c (take_text s) in
    if code d == b'e' then some ("", String.◌∷◌ c s) else more

take_text-put_text : (s rest : String) → take_text (put_text s rest) ≡ some (s, rest)
unfolding put_text take_text
take_text-put_text String.[] String.[] = refl
take_text-put_text String.[] (String.◌∷◌ d rest) = refl
take_text-put_text (String.◌∷◌ c s) rest = ap (in_front_of c) (take_text-put_text s rest)

put_texts : List String → String
unfolding put_text
put_texts [] = ""
put_texts (t ∷ ts) = put_text t (put_texts ts)

abbrev before : String → Option (List String) → Option (List String)
before t none = none
before t (some ts) = some (t ∷ ts)

abbrev then_before :
    (String → Option (List String)) → Option (String × String) → Option (List String)
then_before more none = none
then_before more (some (t, rest)) = before t (more rest)

take_texts : ℕ → String → Option (List String)
unfolding take_text
take_texts zero s = some []
take_texts (suc n) s = then_before (take_texts n) (take_text s)

take_texts-put_texts : (ts : List String) → take_texts (length ts) (put_texts ts) ≡ some ts
unfolding take_texts put_texts
take_texts-put_texts [] = refl
take_texts-put_texts (t ∷ ts) =
    ap (then_before (take_texts (length ts))) (take_text-put_text t (put_texts ts))
    ∙ ap (before t) (take_texts-put_texts ts)

unary : ℕ → String
unary zero = ""
unary (suc n) = "1" ++ₛ unary n

value : String → ℕ
value s = length (codes s)

value-unary : (n : ℕ) → value (unary n) ≡ n
unfolding value unary
value-unary zero = refl
value-unary (suc n) = ap suc (value-unary n)

abbrev optional : Option String → String
optional none = ""
optional (some t) = "s" ++ₛ t

abbrev optional_number : Option ℕ → String
optional_number none = ""
optional_number (some n) = "s" ++ₛ unary n

abbrev optional_of : String → Option String
optional_of String.[] = none
optional_of (String.◌∷◌ c t) = some t

abbrev optional_number_of : String → Option ℕ
optional_number_of String.[] = none
optional_number_of (String.◌∷◌ c t) = some (value t)

optional_of-optional : (o : Option String) → optional_of (optional o) ≡ o
optional_of-optional none = refl
optional_of-optional (some t) = refl

optional_number_of-optional_number : (o : Option ℕ) → optional_number_of (optional_number o) ≡ o
optional_number_of-optional_number none = refl
optional_number_of-optional_number (some n) = ap some (value-unary n)

texts : ProvisionTask → List String
texts t =
    t.task_id
    ∷ t.status
    ∷ unary t.progress
    ∷ t.message
    ∷ optional_number t.started_at
    ∷ optional_number t.finished_at
    ∷ optional t.project_id
    ∷ []

body_of : Option (List String) → Option TaskBody
body_of (some (id ∷ status ∷ progress ∷ message ∷ started ∷ finished ∷ project ∷ [])) =
    some record {
      task_id = some id;
      status = some status;
      progress = some (value progress);
      message = some message;
      started_at = optional_number_of started;
      finished_at = optional_number_of finished;
      project_id = optional_of project;
      cluster_id = none;
    }
body_of _ = none

stringify : ProvisionTask → String
stringify t = put_texts (texts t)

parse : String → Option TaskBody
parse s = body_of (take_texts 7 s)

parse-stringify : (t : ProvisionTask) → parse (stringify t) ≡ some (written t)
unfolding parse stringify texts body_of
parse-stringify t =
    ap body_of (take_texts-put_texts (texts t))
    ∙ rw
        (
          value-unary t.progress,
          optional_number_of-optional_number t.started_at,
          optional_number_of-optional_number t.finished_at,
          optional_of-optional t.project_id,
        )
        refl

put_text-NonEmpty : (s rest : String) → NonEmpty (put_text s rest)
unfolding put_text
put_text-NonEmpty String.[] rest = tt
put_text-NonEmpty (String.◌∷◌ c s) rest = tt

pub codec : TaskJson
unfolding stringify texts put_texts
codec = record {
  stringify = stringify;
  parse = parse;
  parse-stringify = parse-stringify;
  stringify_ne = λ t e. subst NonEmpty e (put_text-NonEmpty t.task_id _);
}
