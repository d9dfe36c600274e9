-- ===== src/Tests/Records.antt =====
-- Snapshot records.
use postgresbuild.Prelude.{◌≡◌, refl, true, some, [], ok, ◌>>=◌, ◌>>◌, guard, expect, ◌↔◌, ◌⊎◌}
use postgresbuild.Prelude.Text.{codes, text_in, texts_eq}
use postgresbuild.Prelude.Sort.{sort, insert}
use postgresbuild.Prelude.Order.{lex}
use postgresbuild.Json.{obj, items, as_dict}
use postgresbuild.Publication.Record.{validate_record, release_names}
use postgresbuild.Publication.Record.Valid.{
  IsRecord, validate_record-IsRecord, archive_name, release_names_exact,
}
use postgresbuild.Tests.Samples.{repository, tag, record_source, built, archive}

pub validate-built : validate_record repository tag (obj record_source) ≡ ok built
unfolding validate_record ◌>>=◌ ◌>>◌ guard expect items texts_eq sort insert lex
validate-built = refl

validate_record-IsRecord_example :
    (as_dict (obj record_source) ≡ some built.source) × IsRecord repository tag built
validate_record-IsRecord_example =
    validate_record-IsRecord repository tag (obj record_source) built validate-built

release_names_exact_example : (text_in archive (release_names built.files) ≡ true) ↔ (
    (archive ≡ archive_name built.coordinate.source_version tag built.coordinate.target [])
    ⊎ (archive
        ≡ archive_name built.coordinate.source_version tag built.coordinate.target
            (codes "-dbgsym")))
release_names_exact_example =
    release_names_exact repository tag (obj record_source) built validate-built archive
