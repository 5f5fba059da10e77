-- ===== src/Changelog.antt =====
-- The changelog and what is new, ui/src/lib/changelog.ts. The regular expression of a heading and
-- `Number` are parameters.
pub mod New
mod Tests
use secure_collab_app.Prelude.{
  ℕ, zero, suc, ◌+◌, ◌≡◌, refl, sym, ap, ◌∙◌, Bool, true, false, ◌&&◌, String, Option, none, some,
  List, [], ◌∷◌, ◌++◌, map, if◌then◌else◌, filter, get_elem?, trim, split, is_empty, concat,
  Option-cases, Bool-cases, inl, inr, arith,
}
use secure_collab_app.Prelude.Int.{
  ℤ, pos, negsuc, Num, nan, int, add_num, le_num, lt_num, sub_ℕ, pos_part, neg_part,
}

pub record ChangelogEntry : Type 0 where
  pub version : String
  pub date : String
  pub body : String

-- `heading` gives the version and the date of a line that the expression matches.
pub record Runtime : Type 0 where
  pub heading : String → Option (String × String)
  pub number : String → Num

abbrev begun : String × String → ChangelogEntry
begun (v, d) = record { version = v; date = trim d; body = "" }

-- `entries.push(current)`, if there is one.
abbrev pushed : Option ChangelogEntry → List ChangelogEntry → List ChangelogEntry
pushed none es = es
pushed (some e) es = e ∷ es

abbrev with_line : Option ChangelogEntry → String → Option ChangelogEntry
with_line none line = none
with_line (some e) line = some (record e { body = concat e.body (concat line "\n") })

abbrev with_trimmed_body : ChangelogEntry → ChangelogEntry
with_trimmed_body e = record e { body = trim e.body }

-- `a - b`
abbrev pub sub_num : Num → Num → Num
sub_num nan b = nan
sub_num (int a) nan = nan
sub_num (int a) (int b) = int (sub_ℕ (pos_part a + neg_part b) (neg_part a + pos_part b))

abbrev is_zero : Num → Bool
is_zero (int (pos zero)) = true
is_zero n = false

-- The first difference that is not 0; NaN is not 0.
abbrev pub compare_parts : Num → Num → Num → Num
compare_parts x y z = if is_zero x then (if is_zero y then z else y) else x

module _ (rt : Runtime) where
  parse_lines : Option ChangelogEntry → List String → List ChangelogEntry
  parse_lines current [] = pushed current []
  parse_lines current (line ∷ lines) =
      let same = parse_lines (with_line current line) lines in
      elim (rt.heading (trim line)) [
        | none ↦ same
        | some h ↦ pushed current (parse_lines (some (begun h)) lines)
      ]

  unfoldable pub parse_changelog : String → List ChangelogEntry
  unfolding parse_lines
  parse_changelog text = map with_trimmed_body (parse_lines none (split b'\n' text))

  -- `pa[i] ?? 0`
  abbrev part : List String → ℕ → Num
  part ps i = elim (get_elem? ps i) [ none ↦ int (pos 0) | some p ↦ rt.number p ]

  abbrev pub part_of : String → ℕ → Num
  part_of v i = part (split b'.' v) i

  abbrev pub compare_versions : String → String → Num
  compare_versions a b =
      compare_parts (sub_num (part_of a 0) (part_of b 0)) (sub_num (part_of a 1) (part_of b 1))
        (sub_num (part_of a 2) (part_of b 2))

  abbrev pub is_new : String → String → ChangelogEntry → Bool
  is_new seen current e =
      lt_num (int (pos 0)) (compare_versions e.version seen)
      && le_num (compare_versions e.version current) (int (pos 0))

  unfoldable pub entries_since : String → Option String → String → List ChangelogEntry
  unfolding parse_changelog
  entries_since text none current = []
  entries_since text (some seen) current =
      if is_empty seen then [] else filter (is_new seen current) (parse_changelog text)

  -- The versions of the headings, in the order of the lines.
  abbrev pub heading_versions : List String → List String
  heading_versions [] = []
  heading_versions (line ∷ lines) = elim (rt.heading (trim line)) [
    | none ↦ heading_versions lines
    | some h ↦ h.0 ∷ heading_versions lines
  ]

  abbrev version_of : Option ChangelogEntry → List String
  version_of none = []
  version_of (some e) = e.version ∷ []

  with_line-version :
      (c : Option ChangelogEntry) (line : String) → version_of (with_line c line) ≡ version_of c
  with_line-version none line = refl
  with_line-version (some e) line = refl

  pushed-version :
      (c : Option ChangelogEntry) (es : List ChangelogEntry)
      → map (λ (e : ChangelogEntry). e.version) (pushed c es)
        ≡ version_of c ++ map (λ (e : ChangelogEntry). e.version) es
  pushed-version none es = refl
  pushed-version (some e) es = refl

  parse_lines-versions :
      (c : Option ChangelogEntry) (lines : List String)
      → map (λ (e : ChangelogEntry). e.version) (parse_lines c lines)
        ≡ version_of c ++ heading_versions lines
  unfolding parse_lines
  parse_lines-versions none [] = refl
  parse_lines-versions (some e) [] = refl
  parse_lines-versions c (line ∷ lines) = elim (Option-cases (rt.heading (trim line))) [
    | inl e ↦
        rw (e, parse_lines, heading_versions)
          (parse_lines-versions (with_line c line) lines
            ∙ ap (λ l. l ++ heading_versions lines) (with_line-version c line))
    | inr (h, e) ↦
        rw (e, parse_lines, heading_versions)
          (pushed-version c _
            ∙ ap (λ l. version_of c ++ l) (parse_lines-versions (some (begun h)) lines))
  ]

  trimmed-versions :
      (es : List ChangelogEntry)
      → map (λ (e : ChangelogEntry). e.version) (map with_trimmed_body es)
        ≡ map (λ (e : ChangelogEntry). e.version) es
  trimmed-versions [] = refl
  trimmed-versions (e ∷ es) = ap (λ l. e.version ∷ l) (trimmed-versions es)

  -- Parsing a changelog gives one entry for each heading, with its version, in the file's order.
  pub parse_changelog-versions :
      (text : String)
      → map (λ (e : ChangelogEntry). e.version) (parse_changelog text)
        ≡ heading_versions (split b'\n' text)
  unfolding parse_changelog
  parse_changelog-versions text = trimmed-versions _ ∙ parse_lines-versions none (split b'\n' text)
