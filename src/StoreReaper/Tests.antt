-- ===== src/StoreReaper/Tests.antt =====
-- The theorems about ui/src/lib/storeReaper.ts at a queue of two names, one of them protected, that
-- is written as its last name.
use Prim.Native.Char.{Char, code}
use secure_collab_app.Prelude.{
  ◌≡◌, refl, true, String, Option, none, some, List, [], ◌∷◌, ◌||◌, if◌then◌else◌, contains, length,
  eqb, ap, ◌∙◌, map, ◌++◌, false,
}
use secure_collab_app.StoreReaper.{
  Browser, Store, succeeds, blocks, read_pending, is_success, retire_store, reap_each, reap_stores,
  ReaperStep, signs_out, starts, run_steps,
}
use secure_collab_app.StoreReaper.Queue.{
  Harmless, IsLawful, came_out, unprotected, run_steps-Harmless, reap_stores-Accounted,
  retire_store-Queued,
}

-- Names are written one after the other, each character after a blank and each name before a
-- semicolon.
abbrev write_name : String → String → String
write_name String.[] rest = String.◌∷◌ ";" rest
write_name (String.◌∷◌ c s) rest = String.◌∷◌ " " (String.◌∷◌ c (write_name s rest))

abbrev write_names : List String → String
write_names [] = ""
write_names (n ∷ ns) = write_name n (write_names ns)

abbrev onto_first : Char → List String → List String
onto_first c [] = []
onto_first c (n ∷ ns) = String.◌∷◌ c n ∷ ns

abbrev read_names : String → List String
read_names String.[] = []
read_names (String.◌∷◌ m String.[]) = if eqb (code m) b';' then "" ∷ [] else []
read_names (String.◌∷◌ m (String.◌∷◌ c s)) =
    let next = read_names (String.◌∷◌ c s) in
    let after = read_names s in if eqb (code m) b';' then "" ∷ next else onto_first c after

read_name : (n s : String) → read_names (write_name n s) ≡ n ∷ read_names s
read_name String.[] String.[] = refl
read_name String.[] (String.◌∷◌ c s) = refl
read_name (String.◌∷◌ c n) s = ap (onto_first c) (read_name n s)

read_names-write : (ns : List String) → read_names (write_names ns) ≡ ns
read_names-write [] = refl
read_names-write (n ∷ ns) = read_name n (write_names ns) ∙ ap (λ l. n ∷ l) (read_names-write ns)

abbrev parse_names : String → Option (List (Option String))
parse_names String.[] = none
parse_names (String.◌∷◌ c s) = some (map some (read_names s))

-- The first deletion is blocked, the others succeed.
abbrev browser : Browser
browser = record {
  parse = parse_names;
  stringify = λ ns. String.◌∷◌ "[" (write_names ns);
  outcome = λ n name. if eqb n 0 then blocks else succeeds;
}

browser-IsLawful : IsLawful browser
browser-IsLawful = record {
  not_empty = λ ns. refl;
  round_trip = λ ns. ap (λ l. some (map some l)) (read_names-write ns);
}

abbrev store : Store
store = record { item = some "[ a; b;"; readable = true; writable = true; attempts = [] }

abbrev steps : List ReaperStep
steps = signs_out (some "c") ∷ signs_out (some "collab-device-key") ∷ starts ∷ []

run :
    (read_pending browser (retire_store browser (some "c") store) ≡ "a" ∷ "b" ∷ "c" ∷ [])
    × ((reap_stores browser store).0 ≡ "b" ∷ [])
    × ((run_steps browser steps store).attempts ≡ "c" ∷ "a" ∷ "b" ∷ "c" ∷ [])
unfolding retire_store reap_stores reap_each
run = (refl, refl, refl)

run_steps-Harmless_example : Harmless (run_steps browser steps store)
run_steps-Harmless_example = run_steps-Harmless browser steps store refl

reap_stores-Accounted_example :
    let names = unprotected browser (read_pending browser store) in
    ((reap_stores browser store).1.attempts ≡ store.attempts ++ names)
    × ((reap_stores browser store).0 ≡ came_out browser true (length store.attempts) names)
    × (read_pending browser (reap_stores browser store).1
        ≡ came_out browser false (length store.attempts) names)
reap_stores-Accounted_example = reap_stores-Accounted browser browser-IsLawful store refl refl

retire_store-Queued_example :
    (is_success (browser.outcome (length store.attempts) "c")
      || contains (read_pending browser (retire_store browser (some "c") store)) "c")
    ≡ true
retire_store-Queued_example =
    retire_store-Queued browser browser-IsLawful store "c" refl refl refl refl
