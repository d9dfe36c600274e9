-- ===== src/Tests/Indexes.antt =====
-- The index of two snapshots that both have the sample record.
use mathlib.Core.List.{Permᴰ}
use postgresbuild.Prelude.{
  ℕ, ◌≤◌, ◌≡◌, refl, sym, ap, ◌∙◌, true, List, [], ◌∷◌, any, count, here, there, arith,
}
use postgresbuild.Prelude.Text.{Text, codes, text_eq}
use postgresbuild.Prelude.Sort.{sort, insert}
use postgresbuild.Prelude.Order.{lex}
use postgresbuild.Json.{end}
use postgresbuild.Publication.Record.{coordinate_eq}
use postgresbuild.Publication.Fragment.{Fragment}
use postgresbuild.Publication.Index.{Latest, project_index}
use postgresbuild.Publication.Index.Independence.{DistinctTags, project_index_of_perm}
use postgresbuild.Publication.Index.Newest.{latest_complete, latest_unique}
use postgresbuild.Tests.Samples.{built}

abbrev older : Fragment
older = record {
  source = end;
  tag = codes "202601020304";
  published_at = codes "2026-01-02T03:09:00Z";
  source_commit = codes "c";
  successful = built ∷ [];
}

abbrev younger : Fragment
younger = record {
  source = end;
  tag = codes "202602020304";
  published_at = codes "2026-02-02T03:09:00Z";
  source_commit = codes "d";
  successful = built ∷ [];
}

abbrev both : List Fragment
both = older ∷ younger ∷ []

abbrev entry : Latest
entry = record { built = built; tag = codes "202602020304" }

latest-both : (project_index both).latest ≡ entry ∷ []
unfolding project_index sort insert lex text_eq
latest-both = refl

latest_complete_example :
    any
      (λ (e : Latest). coordinate_eq built.coordinate e.built.coordinate)
      (project_index both).latest
    ≡ true
latest_complete_example = latest_complete both younger built (there (here refl)) (here refl)

latest_unique_example :
    count
      (λ (e : Latest). coordinate_eq built.coordinate e.built.coordinate)
      (project_index both).latest
    ≤ 1
latest_unique_example = latest_unique both built.coordinate

sixth : Text → ℕ
sixth (a ∷ b ∷ c ∷ d ∷ e ∷ f ∷ l) = f
sixth _ = 0

tag_of : Fragment → Text
tag_of f = f.tag

tags-ne : older.tag ≡ younger.tag → ⊥
unfolding sixth
tags-ne e = omega (arith, ap sixth e)

both-DistinctTags : DistinctTags both
unfolding tag_of
both-DistinctTags f g (here p) (here q) e = p ∙ sym q
both-DistinctTags f g (here p) (there (here q)) e =
    absurd (tags-ne (sym (ap tag_of p) ∙ e ∙ ap tag_of q))
both-DistinctTags f g (here p) (there (there m)) e = elim m [ ]
both-DistinctTags f g (there (here p)) (here q) e =
    absurd (tags-ne (sym (ap tag_of q) ∙ sym e ∙ ap tag_of p))
both-DistinctTags f g (there (here p)) (there (here q)) e = p ∙ sym q
both-DistinctTags f g (there (here p)) (there (there m)) e = elim m [ ]
both-DistinctTags f g (there (there m)) n e = elim m [ ]

project_index_of_perm_example : project_index both ≡ project_index (younger ∷ older ∷ [])
project_index_of_perm_example =
    project_index_of_perm both (younger ∷ older ∷ []) (Permᴰ.swap refl refl) both-DistinctTags
