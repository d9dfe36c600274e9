-- ===== src/Publication/Index/Independence.antt =====
-- The index does not depend on the order in which the store lists the fragments.
use mathlib.Core.List.{Permᴰ}
use postgresbuild.Prelude.{◌≡◌, ap, true, false, List, [], ◌∷◌, In}
use postgresbuild.Prelude.Text.{Text, text_order}
use postgresbuild.Prelude.Order.{lex_order}
use postgresbuild.Prelude.Sort.{sort, sort_of_perm}
use postgresbuild.Publication.Fragment.{Fragment}
use postgresbuild.Publication.Index.{age, newer, project_index}

pub newer_total : (f g : Fragment) → newer f g ≡ false → newer g f ≡ true
unfolding newer
newer_total f g = (lex_order text_order).total (age g) (age f)

pub newer_trans : (f g h : Fragment) → newer f g ≡ true → newer g h ≡ true → newer f h ≡ true
unfolding newer
newer_trans f g h p q = (lex_order text_order).trans (age h) (age g) (age f) q p

second : List Text → Text
second (p ∷ t ∷ l) = t
second _ = []

-- Fragments of the same age have the same tag.
pub newer-tag : (f g : Fragment) → newer f g ≡ true → newer g f ≡ true → f.tag ≡ g.tag
unfolding newer second
newer-tag f g h k = ap second ((lex_order text_order).antisym (age f) (age g) k h)

-- No two fragments have the same tag.
abbrev pub DistinctTags : List Fragment → Type 0
DistinctTags fs = (f g : Fragment) → In f fs → In g fs → f.tag ≡ g.tag → f ≡ g

-- Where the tags are different, the index is the same for every order of the fragments.
pub project_index_of_perm :
    (fs gs : List Fragment) → Permᴰ fs gs → DistinctTags fs → project_index fs ≡ project_index gs
unfolding project_index
project_index_of_perm fs gs p d =
    let e : sort newer fs ≡ sort newer gs =
      sort_of_perm newer newer_total newer_trans p (λ f g m n h k. d f g m n (newer-tag f g h k)) in
    rw e
