-- ===== src/Text.antt =====
-- What the program uses of Go's packages strings, strconv, fmt and path, over native texts.
use Prim.Native.Char.{Char, code}
use Prim.Native.String.{char_at, ◌++◌ as ◌<>◌}
use kube_loxilb.Base.{
  Bool, List, Option, String, [], bool_eq, false, if◌then◌else◌, leb, nat_eq, none, refl, some,
  string_eq, suc, true, zero, ℕ, ◌%◌, ◌&&◌, ◌*◌, ◌+◌, ◌-◌, ◌/◌, ◌==◌, ◌||◌, ◌∷◌, ◌≡◌,
}
use kube_loxilb.Base.Int.{int_eq, negsuc, pos, ℤ}

-- The texts one after the other: `a + b`, fmt.Sprintf("%s:%s", a, b).
unfoldable pub concat : List String → String
concat [] = ""
concat (s ∷ ss) = ◌<>◌ s (concat ss)

-- strings.Join(ss, sep)
unfoldable pub join : String → List String → String
join sep [] = ""
join sep (s ∷ []) = s
join sep (s ∷ t ∷ ss) = ◌<>◌ s (◌<>◌ sep (join sep (t ∷ ss)))

abbrev pub cons_head : Char → List String → List String
cons_head c [] = (String.◌∷◌ c "") ∷ []
cons_head c (p ∷ ps) = (String.◌∷◌ c p) ∷ ps

-- strings.Split(s, sep) at a separator of one ASCII character, given by its code.
unfoldable pub split : ℕ → String → List String
split sep String.[] = "" ∷ []
split sep (String.◌∷◌ c s) =
    let parts = split sep s in if code c == sep then "" ∷ parts else cons_head c parts

unfoldable pub has_prefix : String → String → Bool
has_prefix s String.[] = true
has_prefix String.[] (String.◌∷◌ d t) = false
has_prefix (String.◌∷◌ c s) (String.◌∷◌ d t) = code c == code d && has_prefix s t

-- strings.Contains(s, t)
unfoldable pub contains_text : String → String → Bool
unfolding has_prefix
contains_text String.[] t = t == ""
contains_text (String.◌∷◌ c s) t = has_prefix (String.◌∷◌ c s) t || contains_text s t

lower_char : Char → Char
lower_char c =
    if leb 65 (code c) && leb (code c) 90
    then char_at "abcdefghijklmnopqrstuvwxyz" (code c - 65)
    else c

-- strings.ToLower on ASCII text
unfoldable pub to_lower : String → String
unfolding lower_char
to_lower String.[] = ""
to_lower (String.◌∷◌ c s) = String.◌∷◌ (lower_char c) (to_lower s)

digits : ℕ → ℕ → String → String
digits zero n acc = acc
digits (suc f) n acc =
    let acc' = String.◌∷◌ (char_at "0123456789" (n % 10)) acc in
    let rest = digits f (n / 10) acc' in if n / 10 == 0 then acc' else rest

-- "%d" of a natural number; it has fewer digits than the fuel.
unfoldable pub decimal : ℕ → String
unfolding digits
decimal n = digits (suc n) n ""

-- "%d" of an int
unfoldable pub show_int : ℤ → String
unfolding decimal
show_int (pos n) = decimal n
show_int (negsuc n) = ◌<>◌ "-" (decimal (n + 1))

read_digits : ℕ → String → Option ℕ
read_digits acc String.[] = some acc
read_digits acc (String.◌∷◌ c s) =
    if leb 48 (code c) && leb (code c) 57 then read_digits (acc * 10 + (code c - 48)) s else none

read_unsigned : String → Option ℕ
unfolding read_digits
read_unsigned String.[] = none
read_unsigned (String.◌∷◌ c s) = read_digits 0 (String.◌∷◌ c s)

in_range_pos : Option ℕ → Option ℤ
in_range_pos none = none
in_range_pos (some n) = if leb n 9223372036854775807 then some (pos n) else none

in_range_neg : Option ℕ → Option ℤ
in_range_neg none = none
in_range_neg (some zero) = some (pos 0)
in_range_neg (some (suc n)) = if leb n 9223372036854775807 then some (negsuc n) else none

-- strconv.Atoi: a decimal int of 64 bits with an optional sign.
unfoldable pub atoi : String → Option ℤ
unfolding read_unsigned in_range_pos in_range_neg
atoi String.[] = none
atoi (String.◌∷◌ c s) =
    if code c == 45
    then in_range_neg (read_unsigned s)
    else if code c == 43
    then in_range_pos (read_unsigned s)
    else in_range_pos (read_unsigned (String.◌∷◌ c s))

-- path.Join(a, b) of a namespace and a name: empty elements are ignored. The names of Kubernetes
-- objects hold no slash and are not "." or "..", so path.Clean has nothing to do.
unfoldable pub path_join : String → String → String
path_join a b = if a == "" then b else if b == "" then a else ◌<>◌ a (◌<>◌ "/" b)

atoi_examples :
    (atoi "-7" ≡ some (negsuc 6))
    × (atoi "+12" ≡ some (pos 12))
    × (atoi "1x" ≡ none)
    × (atoi "9223372036854775808" ≡ none)
unfolding atoi
atoi_examples = (refl, refl, refl, refl)

text_examples :
    (split 44 "a,b,,c" ≡ "a" ∷ "b" ∷ "" ∷ "c" ∷ [])
    × (decimal 10250 ≡ "10250")
    × (to_lower "TCP" ≡ "tcp")
    × (contains_text "rule already exists" "exist" ≡ true)
unfolding split decimal to_lower contains_text
text_examples = (refl, refl, refl, refl)
