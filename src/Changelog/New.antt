-- ===== src/Changelog/New.antt =====
-- What is told as new (ui/src/lib/changelog.ts, lines 44 to 71).
use secure_collab_app.Prelude.{
  ℕ, ◌<◌, ◌≡◌, refl, ◌⊎◌, inl, inr, true, false, String, some, List, [], ◌∷◌, arith, All, filter,
  is_empty, Bool-cases, and-eq_true,
}
use secure_collab_app.Prelude.Int.{int, pos, Num, le_num, lt_num}
use secure_collab_app.Changelog.{
  Runtime, ChangelogEntry, sub_num, compare_parts, part_of, compare_versions, is_new,
  parse_changelog, entries_since,
}

-- The three parts of a version are natural numbers.
pub record IsRelease (rt : Runtime) (v : String) : Type 0 where
  pub x : ℕ
  pub y : ℕ
  pub z : ℕ
  pub major : part_of rt v 0 ≡ int (pos x)
  pub minor : part_of rt v 1 ≡ int (pos y)
  pub patch : part_of rt v 2 ≡ int (pos z)

abbrev difference : ℕ → ℕ → Num
difference a b = sub_num (int (pos a)) (int (pos b))

abbrev compared : ℕ → ℕ → ℕ → ℕ → ℕ → ℕ → Num
compared a1 a2 a3 b1 b2 b3 = compare_parts (difference a1 b1) (difference a2 b2) (difference a3 b3)

Newer : ℕ → ℕ → ℕ → ℕ → ℕ → ℕ → Type 0
Newer a1 a2 a3 b1 b2 b3 = (b1 < a1) ⊎ ((a1 ≡ b1) × ((b2 < a2) ⊎ ((a2 ≡ b2) × (b3 < a3))))

compared-Newer :
    (a1 a2 a3 b1 b2 b3 : ℕ)
    → lt_num (int (pos 0)) (compared a1 a2 a3 b1 b2 b3) ≡ true
    → Newer a1 a2 a3 b1 b2 b3
unfolding Newer
compared-Newer a1 a2 a3 b1 b2 b3 h = ground (arith, h)

compared-not_Newer :
    (a1 a2 a3 b1 b2 b3 : ℕ)
    → le_num (compared a1 a2 a3 b1 b2 b3) (int (pos 0)) ≡ true
    → ¬ Newer a1 a2 a3 b1 b2 b3
unfolding Newer
compared-not_Newer a1 a2 a3 b1 b2 b3 h n = ground (arith, h, n)

none_between :
    (a1 a2 a3 b1 b2 b3 c1 c2 c3 : ℕ)
    → Newer a1 a2 a3 b1 b2 b3
    → ¬ Newer a1 a2 a3 c1 c2 c3
    → ¬ Newer c1 c2 c3 b1 b2 b3
    → ⊥
unfolding Newer
none_between a1 a2 a3 b1 b2 b3 c1 c2 c3 n p q = ground (arith, n, p, q)

module _ (rt : Runtime) where
  compared_eq :
      (v w : String) (a : IsRelease rt v) (b : IsRelease rt w)
      → compare_versions rt v w ≡ compared a.x a.y a.z b.x b.y b.z
  compared_eq v w a b = rw (a.major, a.minor, a.patch, b.major, b.minor, b.patch) refl

  not_new :
      (seen current : String) (s : IsRelease rt seen) (c : IsRelease rt current)
      (e : ChangelogEntry)
      → le_num (compare_versions rt current seen) (int (pos 0)) ≡ true
      → IsRelease rt e.version
      → is_new rt seen current e ≡ false
  not_new seen current s c e h r = elim (Bool-cases (is_new rt seen current e)) [
    | inl t ↦
        let both =
          and-eq_true (lt_num (int (pos 0)) (compare_versions rt e.version seen))
            (le_num (compare_versions rt e.version current) (int (pos 0))) t in
        absurd (
          none_between r.x r.y r.z s.x s.y s.z c.x c.y c.z
            (compared-Newer r.x r.y r.z s.x s.y s.z (rw (compared_eq e.version seen r s) at both.0))
            (compared-not_Newer r.x r.y r.z c.x c.y c.z
              (rw (compared_eq e.version current r c) at both.1))
            (compared-not_Newer c.x c.y c.z s.x s.y s.z (rw (compared_eq current seen c s) at h)))
    | inr f ↦ f
  ]

  none_new :
      (seen current : String) (s : IsRelease rt seen) (c : IsRelease rt current)
      (es : List ChangelogEntry)
      → le_num (compare_versions rt current seen) (int (pos 0)) ≡ true
      → All (λ (e : ChangelogEntry). IsRelease rt e.version) es
      → filter (is_new rt seen current) es ≡ []
  none_new seen current s c [] h rs = refl
  none_new seen current s c (e ∷ es) h rs =
      rw (not_new seen current s c e h rs.0) (none_new seen current s c es h rs.1)

  -- Where all versions have natural numbers as their parts, a user who has seen the running version
  -- or a newer one is told of no entry.
  pub entries_since-seen :
      (text seen current : String)
      → IsRelease rt seen
      → IsRelease rt current
      → All (λ (e : ChangelogEntry). IsRelease rt e.version) (parse_changelog rt text)
      → le_num (compare_versions rt current seen) (int (pos 0)) ≡ true
      → entries_since rt text (some seen) current ≡ []
  unfolding entries_since
  entries_since-seen text seen current s c rs h = elim (Bool-cases (is_empty seen)) [
    | inl e ↦ rw e refl
    | inr e ↦ rw e (none_new seen current s c (parse_changelog rt text) h rs)
  ]
