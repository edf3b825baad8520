-- ===== src/Prelude/Text.antt =====
-- What the program uses of Python's `str`: search, split at a separator, affixes, numbers.
use Prim.Native.Nat.{ℕ, zero, suc, ◌+◌, ◌-◌, ◌*◌, ◌/◌, ◌%◌}
use Prim.Native.Char.{code}
use Prim.Native.String.{String, [], ◌∷◌, ◌++◌}
use mathlib.Core.Bool.{Bool, true, false, ◌&&◌, ◌||◌}
use mathlib.Core.Option.{Option, none, some}
use mathlib.Core.List.{List, [] as no_chars, ◌∷◌ as ◌then◌}
use open_stack_cnf.Prelude.Tests.{ltb, leb, ◌==◌, if◌then◌else◌}
use open_stack_cnf.Prelude.Int.{ℤ, pos, neg}

-- The rest of `s` after the prefix `p`, if `p` is one.
abbrev pub cons_if : Bool → Option String → Option String
cons_if true r = r
cons_if false _ = none

unfoldable pub strip_prefix? : String → String → Option String
strip_prefix? [] s = some s
strip_prefix? (c ∷ p) [] = none
strip_prefix? (c ∷ p) (d ∷ s) = cons_if (code c == code d) (strip_prefix? p s)

-- `s.removeprefix(p)`
unfoldable pub remove_prefix : String → String → String
remove_prefix s p = elim (strip_prefix? p s) [ none ↦ s | some r ↦ r ]

-- `s.partition(sep)` where `sep` occurs: the parts before and after the first occurrence.
unfoldable pub partition? : String → String → Option (String × String)
partition? sep [] = elim (strip_prefix? sep []) [ none ↦ none | some r ↦ some ([], r) ]
partition? sep (c ∷ s) =
    let rest = partition? sep s in
    elim (strip_prefix? sep (c ∷ s)) [
      | some r ↦ some ([], r)
      | none ↦ elim rest [ none ↦ none | some q ↦ some (c ∷ q.0, q.1) ]
    ]

-- `sep in s`
unfoldable pub contains : String → String → Bool
contains sep s = elim (partition? sep s) [ none ↦ false | some _ ↦ true ]

-- `s.split(sep)[0]`
unfoldable pub before : String → String → String
before sep s = elim (partition? sep s) [ none ↦ s | some q ↦ q.0 ]

-- `s.split(sep)[1]`, for `sep` not empty; `none` is Python's IndexError.
unfoldable pub second : String → String → Option String
second sep s = elim (partition? sep s) [ none ↦ none | some q ↦ some (before sep q.1) ]

abbrev pub is_blank : String → Bool
is_blank [] = true
is_blank (_ ∷ _) = false

-- White space that `strip` and `int` drop, of ASCII.
abbrev pub is_space : ℕ → Bool
is_space c = c == 32 || (leb 9 c && leb c 13) || (leb 28 c && leb c 31)

-- `s.lstrip()`
unfoldable pub trim_start : String → String
trim_start [] = []
trim_start (c ∷ s) = let rest = trim_start s in if is_space (code c) then rest else c ∷ s

-- `s.rstrip()`
unfoldable pub trim_end : String → String
trim_end [] = []
trim_end (c ∷ s) =
    let rest = trim_end s in if is_space (code c) && is_blank rest then [] else c ∷ rest

-- `s.rstrip("/")`
unfoldable pub strip_slashes : String → String
strip_slashes [] = []
strip_slashes (c ∷ s) =
    let rest = strip_slashes s in if code c == 47 && is_blank rest then [] else c ∷ rest

unfoldable pub trim : String → String
trim s = trim_end (trim_start s)

abbrev pub is_digit : ℕ → Bool
is_digit c = leb 48 c && leb c 57

-- The digits of an integer; one `_` may stand between two digits. The flag says whether the
-- character before was a digit.
unfoldable pub digits_from : Bool → ℕ → String → Option ℕ
digits_from true n [] = some n
digits_from false n [] = none
digits_from after n (c ∷ s) =
    let c' = code c in
    let as_digit = digits_from true (n * 10 + (c' - 48)) s in
    let as_gap = digits_from false n s in
    if is_digit c' then as_digit else if c' == 95 && after then as_gap else none

abbrev signed : Bool → Option ℕ → Option ℤ
signed _ none = none
signed true (some n) = some (neg n)
signed false (some n) = some (pos n)

-- `int(s)` for text in ASCII; `none` is Python's ValueError.
unfoldable pub int_of : String → Option ℤ
unfolding digits_from trim
int_of s = elim (trim s) [
  | [] ↦ none
  | c ∷ r ↦
      if code c == 45
      then signed true (digits_from false 0 r)
      else if code c == 43
      then signed false (digits_from false 0 r)
      else signed false (digits_from false 0 (c ∷ r))
]

abbrev pub digit : ℕ → String
digit zero = "0"
digit (suc zero) = "1"
digit (suc (suc zero)) = "2"
digit (suc (suc (suc zero))) = "3"
digit (suc (suc (suc (suc zero)))) = "4"
digit (suc (suc (suc (suc (suc zero))))) = "5"
digit (suc (suc (suc (suc (suc (suc zero)))))) = "6"
digit (suc (suc (suc (suc (suc (suc (suc zero))))))) = "7"
digit (suc (suc (suc (suc (suc (suc (suc (suc zero)))))))) = "8"
digit _ = "9"

decimal_loop : ℕ → ℕ → String → String
decimal_loop zero n acc = acc
decimal_loop (suc f) n acc =
    let acc' = digit (n % 10) ++ acc in
    let rest = decimal_loop f (n / 10) acc' in if ltb n 10 then acc' else rest

-- `str(n)`: a number has at most as many digits as its value, and one more for 0.
unfoldable pub decimal : ℕ → String
unfolding decimal_loop
decimal n = decimal_loop (n + 1) n ""

unfoldable pub show : ℤ → String
unfolding decimal
show (ℤ.pos n) = decimal n
show (ℤ.negsuc n) = "-" ++ decimal (n + 1)

-- The characters that `for c in s` goes through.
unfoldable pub chars : String → List String
chars [] = no_chars
chars (c ∷ s) = (c ∷ "") then chars s
