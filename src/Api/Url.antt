-- ===== src/Api/Url.antt =====
-- `joinUrl` and the trimming of `baseUrl` in frontend/src/lib/api.ts.
use Prim.Native.Char.{Char, code}
use learn_pg.Prelude.{
  ℕ, ◌+◌, ◌≡◌, refl, ap, Bool, true, false, ◌&&◌, ◌||◌, List, [], ◌∷◌, String, ◌++ₛ◌, if◌then◌else◌,
  nat_beq, leb, inl, inr, Bool-cases,
}

abbrev is_slash : Char → Bool
is_slash c = nat_beq (code c) b'/'

-- A character before what is left of the rest: a slash goes if nothing is left.
abbrev keep : Char → String → String
keep c String.[] = if is_slash c then String.[] else String.◌∷◌ c String.[]
keep c (String.◌∷◌ d s) = String.◌∷◌ c (String.◌∷◌ d s)

-- `baseUrl.replace(/\/+$/, '')`
unfoldable pub strip_slashes : String → String
strip_slashes String.[] = String.[]
strip_slashes (String.◌∷◌ c s) = keep c (strip_slashes s)

-- ASCII letters compare without case.
abbrev pub lower : ℕ → ℕ
lower c = if leb b'A' c && leb c b'Z' then c + 32 else c

unfoldable pub starts : List ℕ → String → Bool
starts [] s = true
starts (p ∷ ps) String.[] = false
starts (p ∷ ps) (String.◌∷◌ c s) = nat_beq (lower (code c)) p && starts ps s

abbrev http_scheme : List ℕ
http_scheme = b'h' ∷ b't' ∷ b't' ∷ b'p' ∷ b':' ∷ b'/' ∷ b'/' ∷ []

abbrev https_scheme : List ℕ
https_scheme = b'h' ∷ b't' ∷ b't' ∷ b'p' ∷ b's' ∷ b':' ∷ b'/' ∷ b'/' ∷ []

-- `/^https?:\/\//i.test(path)`
unfoldable pub is_absolute : String → Bool
unfolding starts
is_absolute path = starts http_scheme path || starts https_scheme path

-- `if (!path.startsWith('/')) path = '/' + path`
unfoldable pub rooted : String → String
rooted String.[] = "/"
rooted (String.◌∷◌ c s) = if is_slash c then String.◌∷◌ c s else "/" ++ₛ String.◌∷◌ c s

unfoldable pub join_url : String → String → String
unfolding is_absolute
join_url base path = if is_absolute path then path else base ++ₛ rooted path

abbrev pub AllSlashes : String → Type 0
AllSlashes String.[] = Unit {0}
AllSlashes (String.◌∷◌ c s) = (is_slash c ≡ true) × AllSlashes s

-- The text is empty or ends in a character that is no slash.
abbrev pub NoSlashEnd : String → Type 0
NoSlashEnd String.[] = Unit {0}
NoSlashEnd (String.◌∷◌ c String.[]) = is_slash c ≡ false
NoSlashEnd (String.◌∷◌ c (String.◌∷◌ d s)) = NoSlashEnd (String.◌∷◌ d s)

abbrev Splits : String → String → Type 0
Splits s left = (tail : String) × (s ≡ left ++ₛ tail) × AllSlashes tail × NoSlashEnd left

Splits-keep : (c : Char) (s left : String) → Splits s left → Splits (String.◌∷◌ c s) (keep c left)
Splits-keep c s String.[] (tail, e, a, n) = elim (Bool-cases (is_slash c)) [
  | inl slash ↦ rw slash (String.◌∷◌ c tail, ap (String.◌∷◌ c) e, (slash, a), tt)
  | inr other ↦ rw other (tail, ap (String.◌∷◌ c) e, a, other)
]
Splits-keep c s (String.◌∷◌ d left) (tail, e, a, n) = (tail, ap (String.◌∷◌ c) e, a, n)

-- Stripping takes off a run of slashes at the end, all of it, and nothing else.
pub strip_slashes_lem :
    (s : String)
    → (tail : String) × (s ≡ strip_slashes s ++ₛ tail)
      × AllSlashes tail
      × NoSlashEnd (strip_slashes s)
unfolding strip_slashes
strip_slashes_lem String.[] = (String.[], refl, tt, tt)
strip_slashes_lem (String.◌∷◌ c s) = Splits-keep c s (strip_slashes s) (strip_slashes_lem s)

strip_slashes_all : (tail : String) → AllSlashes tail → strip_slashes tail ≡ String.[]
unfolding strip_slashes
strip_slashes_all String.[] a = refl
strip_slashes_all (String.◌∷◌ c s) a = rw (strip_slashes_all s a.1, a.0) refl

strip_slashes-append :
    (s tail : String) → AllSlashes tail → strip_slashes (s ++ₛ tail) ≡ strip_slashes s
unfolding strip_slashes
strip_slashes-append String.[] tail a = strip_slashes_all tail a
strip_slashes-append (String.◌∷◌ c s) tail a = ap (keep c) (strip_slashes-append s tail a)

-- A relative path, with or without its leading slash, on a base URL with or without slashes at its
-- end, makes the same URL.
pub join_url-slashes :
    (base tail : String) (c : Char) (s : String)
    → AllSlashes tail
    → is_slash c ≡ false
    → is_absolute (String.◌∷◌ c s) ≡ false
    → (join_url (strip_slashes (base ++ₛ tail)) ("/" ++ₛ String.◌∷◌ c s)
        ≡ join_url (strip_slashes base) (String.◌∷◌ c s))
      × (join_url (strip_slashes base) (String.◌∷◌ c s)
          ≡ strip_slashes base ++ₛ "/" ++ₛ String.◌∷◌ c s)
unfolding join_url rooted
join_url-slashes base tail c s a n r =
    rw (strip_slashes-append base tail a, r, n, rooted) (refl, refl)
