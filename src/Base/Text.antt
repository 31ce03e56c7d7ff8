-- ===== src/Base/Text.antt =====
-- Go's `strings`: trimming, searching and prefixes, over the characters of a text.
pub mod Trimming
use Prim.Native.Char.{code}
use Prim.Native.Nat.{ℕ, Ordering}
use Prim.Native.String.{String, compare, ◌++◌ as ◌+++◌}
use mathlib.Core.Path.{◌≡◌, refl}
use mathlib.Core.Bool.{Bool, true, false, ◌&&◌, ◌||◌}
use mathlib.Core.List.{List, [], ◌∷◌}
use text.Mathlib.Text.{◌==◌}
use poe_acp_relay.Base.Tests.{if◌then◌else◌, nat_eq, leb}

-- `unicode.IsSpace`
is_space : ℕ → Bool
is_space c =
    (leb 9 c && leb c 13)
    || nat_eq c 32
    || nat_eq c 0x85
    || nat_eq c 0xa0
    || nat_eq c 0x1680
    || (leb 0x2000 c && leb c 0x200a)
    || nat_eq c 0x2028
    || nat_eq c 0x2029
    || nat_eq c 0x202f
    || nat_eq c 0x205f
    || nat_eq c 0x3000

trim_left : String → String
unfolding is_space
trim_left String.[] = ""
trim_left (String.◌∷◌ c s) = if is_space (code c) then trim_left s else String.◌∷◌ c s

trim_right : String → String
unfolding is_space
trim_right String.[] = ""
trim_right (String.◌∷◌ c s) =
    let rest = trim_right s in if rest == "" && is_space (code c) then "" else String.◌∷◌ c rest

-- `strings.TrimSpace`
unfoldable pub trim_space : String → String
unfolding trim_left trim_right
trim_space s = trim_right (trim_left s)

abbrev word_out : String → List String → List String
word_out word rest = if word == "" then rest else word ∷ rest

split_words : String → String → List String
unfolding is_space
split_words word String.[] = word_out word []
split_words word (String.◌∷◌ c s) = elim (is_space (code c)) [
  | true ↦ word_out word (split_words "" s)
  | false ↦ split_words (word +++ String.◌∷◌ c "") s
]

-- `strings.Fields`
unfoldable pub fields : String → List String
unfolding split_words
fields s = split_words "" s

-- `strings.HasPrefix`
unfoldable pub has_prefix : String → String → Bool
has_prefix s String.[] = true
has_prefix String.[] (String.◌∷◌ d p) = false
has_prefix (String.◌∷◌ c s) (String.◌∷◌ d p) = nat_eq (code c) (code d) && has_prefix s p

unfoldable pub drop_prefix : String → String → String
drop_prefix s String.[] = s
drop_prefix String.[] (String.◌∷◌ d p) = ""
drop_prefix (String.◌∷◌ c s) (String.◌∷◌ d p) = drop_prefix s p

-- `strings.TrimPrefix`
unfoldable pub trim_prefix : String → String → String
unfolding has_prefix drop_prefix
trim_prefix s p = if has_prefix s p then drop_prefix s p else s

-- `strings.Contains`
unfoldable pub contains : String → String → Bool
unfolding has_prefix
contains String.[] sub = has_prefix String.[] sub
contains (String.◌∷◌ c s) sub = has_prefix (String.◌∷◌ c s) sub || contains s sub

-- `sort.Strings`
insert_sorted : String → List String → List String
insert_sorted s [] = s ∷ []
insert_sorted s (t ∷ ts) = elim (compare s t) [
  | Ordering.gt ↦ t ∷ insert_sorted s ts
  | _ ↦ s ∷ t ∷ ts
]

unfoldable pub sort_text : List String → List String
unfolding insert_sorted
sort_text [] = []
sort_text (s ∷ ss) = insert_sorted s (sort_text ss)

trim_test : trim_space " \t/login x\n" ≡ "/login x"
unfolding trim_space
trim_test = refl

sort_test : sort_text ("b" ∷ "c" ∷ "a" ∷ []) ≡ "a" ∷ "b" ∷ "c" ∷ []
unfolding sort_text
sort_test = refl

fields_test : fields " fir  --mode acp" ≡ "fir" ∷ "--mode" ∷ "acp" ∷ []
unfolding fields
fields_test = refl
