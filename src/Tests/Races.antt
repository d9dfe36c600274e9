-- ===== src/Tests/Races.antt =====
-- Two calls of `materialize` that race: the second loses its first swap and tries again.
use postgresbuild.Prelude.{
  ℕ, zero, suc, ◌≡◌, refl, none, List, [], ◌∷◌, ◌++◌, map, In, here, String, ok, ◌>>=◌, ◌>>◌, guard,
  expect, traverse,
}
use postgresbuild.Prelude.Text.{Text, codes}
use postgresbuild.Json.{arr, str, nil, Fields, end, field}
use postgresbuild.Prelude.Text.{text_eq, is_hex}
use postgresbuild.Prelude.Sort
use postgresbuild.Prelude.Order.{lex}
use postgresbuild.Json.{items}
use postgresbuild.Publication.Fragment.{Fragment, fragment, validate_fragment}
use postgresbuild.Publication.Index.{Index, Snapshot, validate_index}
use postgresbuild.Publication.Materialize.{Program, done, prepare, decode}
use postgresbuild.Publication.Materialize.Encoding.{sort_keys}
use postgresbuild.Publication.Materialize.Knowledge.{live_tags, Backed}
use postgresbuild.Publication.Materialize.NoLostUpdate.{no_lost_update, published_for_good}
use postgresbuild.Publication.Materialize.Store.{Writer, writer, run}
use postgresbuild.Tests.Samples.{repository, platform, commit}
use postgresbuild.Tests.Serial.{codec, dumps, loads}
use postgresbuild.Tests.Stores.{Memory, memory, write, swap}

abbrev snapshot_at : String → Fields
snapshot_at tag = field (codes "repository") (str repository) (
    field (codes "source_commit") (str (codes commit))
      (field (codes "successful") (arr nil) (field (codes "tag") (str (codes tag)) end)))

abbrev both : List (Fields × Text)
both =
    (snapshot_at "202601020304", codes "2026-01-02T03:09:00Z")
    ∷ (snapshot_at "202602020304", codes "2026-02-02T03:09:00Z")
    ∷ []

abbrev nothing : Memory
nothing = record { index = none; blobs = [] }

abbrev schedule : List ℕ
schedule = 0 ∷ 1 ∷ 0 ∷ 1 ∷ 0 ∷ 1 ∷ 0 ∷ []

abbrev rest : List ℕ
rest = 1 ∷ 1 ∷ 1 ∷ 1 ∷ []

abbrev writers : List Writer
writers = map (writer platform codec repository) both

abbrev entry_at : String → String → Snapshot
entry_at tag published_at = record {
  published_at = codes published_at;
  source_commit = codes commit;
  successful = [];
  tag = codes tag;
}

abbrev final : Index
final = record {
  latest = [];
  snapshots =
      entry_at "202602020304" "2026-02-02T03:09:00Z"
      ∷ entry_at "202601020304" "2026-01-02T03:09:00Z"
      ∷ [];
}

abbrev finished : Fields × Text → Writer
finished (snapshot, published_at) = record {
  snapshot = snapshot;
  published_at = published_at;
  program = done (ok final);
}

program_of : List Writer → ℕ → Program
program_of [] n = done (ok final)
program_of (w ∷ ws) zero = w.program
program_of (w ∷ ws) (suc n) = program_of ws n

-- Both end with the same index, the second after another round.
race : program_of (run memory (schedule ++ rest) writers nothing).0 1 ≡ done (ok final)
unfolding program_of run writer validate_fragment ◌>>=◌ ◌>>◌ guard expect traverse items sort_keys
    dumps loads write swap Sort.sort Sort.insert lex text_eq is_hex decode prepare fragment
    validate_index
race = refl

nothing-Backed : Backed platform codec repository memory nothing
nothing-Backed t m = elim m [ ]

no_lost_update_example :
    ((t : Text)
      → In t (live_tags platform codec repository memory (run memory schedule writers nothing).1)
      → In t (
          live_tags platform codec repository memory
            (run memory (schedule ++ rest) writers nothing).1))
    × Backed platform codec repository memory (run memory (schedule ++ rest) writers nothing).1
no_lost_update_example =
    no_lost_update platform codec repository memory both nothing nothing-Backed schedule rest

published_for_good_example :
    (item : Fragment) × (prepare platform codec repository
        (snapshot_at "202601020304")
        (codes "2026-01-02T03:09:00Z")
      ≡ ok item)
    × In item.tag (
        live_tags platform codec repository memory
          (run memory (schedule ++ rest) writers nothing).1)
unfolding run writer validate_fragment ◌>>=◌ ◌>>◌ guard expect traverse items sort_keys dumps loads
    write swap Sort.sort Sort.insert lex text_eq is_hex decode prepare fragment validate_index
published_for_good_example =
    published_for_good platform codec repository memory both nothing nothing-Backed schedule rest
      (finished (snapshot_at "202601020304", codes "2026-01-02T03:09:00Z")) final (here refl) refl
