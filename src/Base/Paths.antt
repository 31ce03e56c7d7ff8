-- ===== src/Base/Paths.antt =====
-- Go's `path/filepath` on a Unix system: `Clean` and `Join`.
use Prim.Native.Char.{Char, code}
use Prim.Native.String.{String, ◌++◌ as ◌+++◌}
use Prim.Native.Nat.{ℕ}
use mathlib.Core.Path.{◌≡◌, refl}
use mathlib.Core.Bool.{Bool, true, false, ◌||◌}
use mathlib.Core.List.{List, [], ◌∷◌, reverse}
use text.Mathlib.Text.{◌==◌}
use poe_acp_relay.Base.Tests.{if◌then◌else◌, nat_eq}

prepend_char : Char → List String → List String
prepend_char c [] = String.◌∷◌ c "" ∷ []
prepend_char c (x ∷ xs) = String.◌∷◌ c x ∷ xs

-- `strings.Split` at one character, given by its number.
unfoldable pub split_char : ℕ → String → List String
unfolding prepend_char
split_char k String.[] = "" ∷ []
split_char k (String.◌∷◌ c s) =
    let rest = split_char k s in if nat_eq (code c) k then "" ∷ rest else prepend_char c rest

-- `strings.Join`
unfoldable pub join_text : String → List String → String
join_text sep [] = ""
join_text sep (x ∷ []) = x
join_text sep (x ∷ y ∷ ys) = x +++ (sep +++ join_text sep (y ∷ ys))

abbrev pub is_rooted : String → Bool
is_rooted String.[] = false
is_rooted (String.◌∷◌ c s) = nat_eq (code c) b'/'

-- A ".." takes back the element before it, if there is one to take back; at the root it vanishes. The
-- stack has its top at the head.
climb : Bool → List String → List String
climb rooted (x ∷ stack) = if x == ".." then ".." ∷ x ∷ stack else stack
climb true [] = []
climb false [] = ".." ∷ []

clean_part : Bool → List String → String → List String
unfolding climb
clean_part rooted stack part =
    if part == "" || part == "."
    then stack
    else if part == ".."
    then climb rooted stack
    else part ∷ stack

clean_parts : Bool → List String → List String → List String
unfolding clean_part
clean_parts rooted stack [] = stack
clean_parts rooted stack (p ∷ ps) = clean_parts rooted (clean_part rooted stack p) ps

-- `filepath.Clean`
unfoldable pub clean : String → String
unfolding clean_parts split_char join_text
clean path =
    let rooted = is_rooted path in
    let body = join_text "/" (reverse (clean_parts rooted [] (split_char b'/' path))) in
    if rooted then "/" +++ body else if body == "" then "." else body

-- `filepath.Join`: leading empty elements are left out.
unfoldable pub join : List String → String
unfolding clean
join [] = ""
join (x ∷ xs) = if x == "" then join xs else clean (join_text "/" (x ∷ xs))

last_part : List String → String
last_part [] = ""
last_part (x ∷ []) = x
last_part (x ∷ y ∷ ys) = last_part (y ∷ ys)

front_parts : List String → List String
front_parts [] = []
front_parts (x ∷ []) = []
front_parts (x ∷ y ∷ ys) = x ∷ front_parts (y ∷ ys)

-- `filepath.Base` of a path that does not end in a separator.
unfoldable pub base_name : String → String
unfolding last_part split_char
base_name path = last_part (split_char b'/' path)

-- `filepath.Dir`
unfoldable pub dir_name : String → String
unfolding front_parts clean join_text split_char
dir_name path = clean (join_text "/" (front_parts (split_char b'/' path)))

join_test : join ("/srv/state" ∷ "convs" ∷ "c1" ∷ []) ≡ "/srv/state/convs/c1"
unfolding join
join_test = refl

join_climbs : join ("/srv/state" ∷ "convs" ∷ "../../x" ∷ []) ≡ "/srv/x"
unfolding join
join_climbs = refl
