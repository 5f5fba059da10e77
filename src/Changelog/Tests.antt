-- ===== src/Changelog/Tests.antt =====
-- ui/src/lib/changelog.ts at a changelog of two entries.
use secure_collab_app.Prelude.{
  ◌≡◌, refl, String, none, some, [], ◌∷◌, map, split, trim, ◌==◌, if◌then◌else◌,
}
use secure_collab_app.Prelude.Int.{nan, int, pos}
use secure_collab_app.Changelog.{Runtime, ChangelogEntry, parse_changelog, entries_since}

abbrev runtime : Runtime
runtime = record {
  heading = λ line.
      if line == "## 0.1.10"
      then some ("0.1.10", " today ")
      else if line == "## 0.1.9"
      then some ("0.1.9", "before")
      else none;
  number = λ s.
      if s == "0"
      then int (pos 0)
      else if s == "1"
      then int (pos 1)
      else if s == "9"
      then int (pos 9)
      else if s == "10"
      then int (pos 10)
      else nan;
}

abbrev file : String
file = "# Changes\n## 0.1.10\nnew\n\n## 0.1.9\nold\n"

parsed :
    (parse_changelog runtime file
      ≡ record { version = "0.1.10"; date = "today"; body = "new" }
        ∷ record { version = "0.1.9"; date = "before"; body = "old" }
        ∷ [])
    × (map (λ (e : ChangelogEntry). e.version) (entries_since runtime file (some "0.1.9") "0.1.10")
        ≡ "0.1.10" ∷ [])
unfolding parse_changelog entries_since split trim
parsed = (refl, refl)
