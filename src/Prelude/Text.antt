-- ===== src/Prelude/Text.antt =====
-- Text: joining, upper case, a search for a marker, and `sorted` on texts.
use Prim.Native.Nat.{ℕ, ◌-◌, Ordering}
use Prim.Native.Char.{code}
use Prim.Native.String.{String, compare}
use mathlib.Core.Bool.{Bool, true, false, ◌&&◌, ◌||◌}
use mathlib.Core.List.{List, [], ◌∷◌, map}
use alr_tw.Prelude.Tests.{if◌then◌else◌, leb, ◌==◌, nat_eq, string_eq}
use alr_tw.Prelude.Lists.{dedup}

-- The code points of a text.
abbrev pub codes : String → List ℕ
codes String.[] = []
codes (String.◌∷◌ c s) = code c ∷ codes s

-- `str.upper` on one code point, for ASCII; other letters stay as they are.
unfoldable pub upper : ℕ → ℕ
upper c = if leb b'a' c && leb c b'z' then c - 32 else c

unfoldable pub begins_with : List ℕ → List ℕ → Bool
begins_with [] xs = true
begins_with (m ∷ ms) [] = false
begins_with (m ∷ ms) (x ∷ xs) = let rest = begins_with ms xs in if m == x then rest else false

-- `marker in text`
unfoldable pub is_infix : List ℕ → List ℕ → Bool
unfolding begins_with
is_infix ms [] = begins_with ms []
is_infix ms (x ∷ xs) = let rest = is_infix ms xs in if begins_with ms (x ∷ xs) then true else rest

-- `marker in text.upper()`
unfoldable pub upper_contains : String → String → Bool
unfolding upper is_infix
upper_contains text marker = is_infix (codes marker) (map upper (codes text))

unfoldable pub insert_sorted : String → List String → List String
insert_sorted x [] = x ∷ []
insert_sorted x (y ∷ ys) = elim (compare x y) [
  | Ordering.gt ↦ y ∷ insert_sorted x ys
  | _ ↦ x ∷ y ∷ ys
]

unfoldable pub sort : List String → List String
unfolding insert_sorted
sort [] = []
sort (x ∷ xs) = insert_sorted x (sort xs)

-- `sorted(xs)` on texts, and `sorted(set(xs))`
unfoldable pub sorted : List String → List String
unfolding sort
sorted xs = sort xs

unfoldable pub sorted_set : List String → List String
unfolding sorted dedup
sorted_set xs = sorted (dedup xs)

-- white space, as `str.strip` takes it away
unfoldable pub is_space_code : ℕ → Bool
is_space_code c =
    (leb 9 c && leb c 13)
    || (leb 28 c && leb c 32)
    || (c == 133)
    || (c == 160)
    || (c == 5760)
    || (leb 8192 c && leb c 8202)
    || (c == 8232)
    || (c == 8233)
    || (c == 8239)
    || (c == 8287)
    || (c == 12288)

unfoldable pub strip_left : String → String
unfolding is_space_code
strip_left String.[] = String.[]
strip_left (String.◌∷◌ c s) =
    let rest = strip_left s in if is_space_code (code c) then rest else String.◌∷◌ c s

unfoldable pub strip_right : String → String
unfolding is_space_code
strip_right String.[] = String.[]
strip_right (String.◌∷◌ c s) =
    let rest = strip_right s in
    if is_space_code (code c) && (rest == "") then "" else String.◌∷◌ c rest

-- `str.strip()`
unfoldable pub strip : String → String
unfolding strip_left strip_right
strip text = strip_right (strip_left text)
