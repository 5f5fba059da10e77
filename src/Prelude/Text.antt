-- ===== src/Prelude/Text.antt =====
-- The JavaScript text functions that the program calls: `trim`, `split`, `replace`, `parseInt`.
use Prim.Native.Nat.{ℕ, ◌+◌, ◌-◌, ◌*◌}
use Prim.Native.Char.{code}
use Prim.Native.String.{String}
use mathlib.Core.Bool.{Bool, true, false, ◌&&◌, ◌||◌}
use mathlib.Core.List.{List, [], ◌∷◌}
use mathlib.Core.Option.{Option, none, some}
use secure_collab_app.Prelude.Tests.{if◌then◌else◌, leb, eqb}

-- The white space of ECMAScript: its WhiteSpace and LineTerminator code points.
abbrev pub is_space : ℕ → Bool
is_space c =
    eqb c 32
    || (leb 9 c && leb c 13)
    || eqb c 160
    || eqb c 5760
    || (leb 8192 c && leb c 8202)
    || eqb c 8232
    || eqb c 8233
    || eqb c 8239
    || eqb c 8287
    || eqb c 12288
    || eqb c 65279

abbrev pub is_empty : String → Bool
is_empty String.[] = true
is_empty (String.◌∷◌ c s) = false

unfoldable pub trim_start : String → String
trim_start String.[] = ""
trim_start (String.◌∷◌ c s) =
    let rest = trim_start s in if is_space (code c) then rest else String.◌∷◌ c s

unfoldable pub trim_end : String → String
trim_end String.[] = ""
trim_end (String.◌∷◌ c s) =
    let rest = trim_end s in if is_space (code c) && is_empty rest then "" else String.◌∷◌ c rest

unfoldable pub trim : String → String
unfolding trim_start trim_end
trim s = trim_end (trim_start s)

-- `s + t`
abbrev pub concat : String → String → String
concat String.[] t = t
concat (String.◌∷◌ c s) t = String.◌∷◌ c (concat s t)

-- `t.startsWith(m)`
abbrev pub starts_with : String → String → Bool
starts_with String.[] t = true
starts_with (String.◌∷◌ c m) String.[] = false
starts_with (String.◌∷◌ c m) (String.◌∷◌ d t) = eqb (code c) (code d) && starts_with m t

-- `t.slice(m.length)`
abbrev pub slice_after : String → String → String
slice_after String.[] t = t
slice_after (String.◌∷◌ c m) String.[] = ""
slice_after (String.◌∷◌ c m) (String.◌∷◌ d t) = slice_after m t

-- `s.replace(/c/g, '')`
unfoldable pub remove_all : ℕ → String → String
remove_all d String.[] = ""
remove_all d (String.◌∷◌ c s) =
    let rest = remove_all d s in if eqb (code c) d then rest else String.◌∷◌ c rest

-- `s.split(d)` for a separator of one character: the first piece, and the others.
unfoldable pub split_first : ℕ → String → String × List String
split_first d String.[] = ("", [])
split_first d (String.◌∷◌ c s) =
    let rest = split_first d s in
    if eqb (code c) d then ("", rest.0 ∷ rest.1) else (String.◌∷◌ c rest.0, rest.1)

unfoldable pub split : ℕ → String → List String
unfolding split_first
split d s = let p = split_first d s in p.0 ∷ p.1

-- `s.slice(0, i)` and `s.slice(i + 1)` at the first place i of a character, if it has one.
unfoldable pub cut_at : ℕ → String → Option (String × String)
cut_at d String.[] = none
cut_at d (String.◌∷◌ c s) =
    let rest = cut_at d s in
    if eqb (code c) d
    then some ("", s)
    else elim rest [ none ↦ none | some p ↦ some (String.◌∷◌ c p.0, p.1) ]

-- `s.replace(/^c/, '')`
unfoldable pub strip_first : ℕ → String → String
strip_first d String.[] = ""
strip_first d (String.◌∷◌ c s) = if eqb (code c) d then s else String.◌∷◌ c s

-- The decimal digits that `parseInt` reads: the value so far, and whether there was a digit.
unfoldable pub digits_from : Option ℕ → String → Option ℕ
digits_from acc String.[] = acc
digits_from acc (String.◌∷◌ c s) =
    let more = digits_from (some (elim acc [ none ↦ 0 | some n ↦ n ] * 10 + (code c - b'0'))) s in
    if leb b'0' (code c) && leb (code c) b'9' then more else acc
