-- ===== src/ClusterHome/Edges.antt =====
-- The key of an edge, `${from}->${to}`, and `key.split('->')`.
use Prim.Native.Char.{code}
use learn_pg.Prelude.{
  ◌≡◌, refl, ap, Bool, false, ◌&&◌, Option, none, some, String, if◌then◌else◌, ◌==◌, nat_eq, ◌++ₛ◌,
  arith,
}

-- Whether the text begins with `->`.
abbrev pub at_arrow : String → Bool
at_arrow (String.◌∷◌ c (String.◌∷◌ d s)) = (code c == b'-') && (code d == b'>')
at_arrow _ = false

-- The part of the text before its first `->`, all of it where there is none.
unfoldable pub before_arrow : String → String
before_arrow String.[] = ""
before_arrow (String.◌∷◌ c s) =
    let rest = before_arrow s in if at_arrow (String.◌∷◌ c s) then "" else String.◌∷◌ c rest

abbrev drop_two : String → String
drop_two (String.◌∷◌ c (String.◌∷◌ d s)) = s
drop_two _ = ""

-- What follows the first `->`, if there is one.
unfoldable pub after_arrow : String → Option String
after_arrow String.[] = none
after_arrow (String.◌∷◌ c s) =
    let rest = after_arrow s in
    if at_arrow (String.◌∷◌ c s) then some (drop_two (String.◌∷◌ c s)) else rest

abbrev before_arrow_of : Option String → Option String
before_arrow_of none = none
before_arrow_of (some s) = some (before_arrow s)

-- The first two parts of `key.split('->')`; the second may be missing.
unfoldable pub split_key : String → String × Option String
unfolding before_arrow after_arrow
split_key key = (before_arrow key, before_arrow_of (after_arrow key))

unfoldable pub edge_key : (from to : String) → String
edge_key from to = from ++ₛ "->" ++ₛ to

-- The text has no `->` in it.
abbrev pub NoArrow : String → Type 0
NoArrow String.[] = Unit {0}
NoArrow (String.◌∷◌ c s) = (at_arrow (String.◌∷◌ c s) ≡ false) × NoArrow s

-- No arrow begins within a text without arrows that is followed by one.
at_arrow-append :
    (c : Prim.Native.Char.Char) (s t : String)
    → at_arrow (String.◌∷◌ c s) ≡ false
    → at_arrow (String.◌∷◌ c (s ++ₛ "->" ++ₛ t)) ≡ false
at_arrow-append c String.[] t h = ground arith
at_arrow-append c (String.◌∷◌ d s) t h = h

before_arrow-key : (a b : String) → NoArrow a → before_arrow (a ++ₛ "->" ++ₛ b) ≡ a
unfolding before_arrow
before_arrow-key String.[] b h = refl
before_arrow-key (String.◌∷◌ c a) b h =
    rw (at_arrow-append c a b h.0) (ap (String.◌∷◌ c) (before_arrow-key a b h.1))

after_arrow-key : (a b : String) → NoArrow a → after_arrow (a ++ₛ "->" ++ₛ b) ≡ some b
unfolding after_arrow
after_arrow-key String.[] b h = refl
after_arrow-key (String.◌∷◌ c a) b h = rw (at_arrow-append c a b h.0) (after_arrow-key a b h.1)

before_arrow-whole : (b : String) → NoArrow b → before_arrow b ≡ b
unfolding before_arrow
before_arrow-whole String.[] h = refl
before_arrow-whole (String.◌∷◌ c b) h = rw h.0 (ap (String.◌∷◌ c) (before_arrow-whole b h.1))

-- The key of an edge between ids without arrows is split into these ids.
pub split_key-edge_key :
    (a b : String) → NoArrow a → NoArrow b → split_key (edge_key a b) ≡ (a, some b)
unfolding split_key edge_key
split_key-edge_key a b h k =
    rw (before_arrow-key a b h, after_arrow-key a b h, before_arrow-whole b k) refl
