-- ===== src/Paths.antt =====
-- `pathlib`'s POSIX paths, as the recipe and its helper use them: whether there is a root, and the
-- parts after it. The two leading slashes that POSIX leaves open are one root here.
use postgresbuild.Prelude.{
  ◌==◌, Bool, true, false, not, ◌&&◌, ◌||◌, Option, none, some, List, [], ◌∷◌, ◌++◌, keep,
  if◌then◌else◌,
}
use postgresbuild.Prelude.Text.{Text, codes, is, is_empty, text_eq, texts_eq}
use postgresbuild.Publication.Policy.{split_slash}

pub record PurePath : Type 0 where
  pub absolute : Bool
  pub parts : List Text

abbrev starts_slash : Text → Bool
starts_slash [] = false
starts_slash (c ∷ s) = c == b'/'

-- `Path(text)`
unfoldable pub path : Text → PurePath
unfolding split_slash is
path s = record {
  absolute = starts_slash s;
  parts = keep (λ p. not (is_empty p || is p ".")) (split_slash s);
}

-- `p / q`
abbrev pub join : PurePath → PurePath → PurePath
join p q = if q.absolute then q else record { absolute = p.absolute; parts = p.parts ++ q.parts }

unfoldable pub with_slashes : List Text → Text
with_slashes [] = []
with_slashes (p ∷ []) = p
with_slashes (p ∷ q ∷ ps) = p ++ codes "/" ++ with_slashes (q ∷ ps)

-- `str(p)` and `p.as_posix()`
unfoldable pub as_posix : PurePath → Text
unfolding with_slashes
as_posix p =
    if p.absolute
    then codes "/" ++ with_slashes p.parts
    else elim p.parts [ [] ↦ codes "." | q ∷ qs ↦ with_slashes p.parts ]

-- `p.name`
unfoldable pub last_part : List Text → Text
last_part [] = []
last_part (p ∷ []) = p
last_part (p ∷ q ∷ ps) = last_part (q ∷ ps)

-- What follows the parts of a root.
unfoldable pub after_parts : List Text → List Text → Option (List Text)
unfolding text_eq
after_parts [] ps = some ps
after_parts (r ∷ rs) [] = none
after_parts (r ∷ rs) (p ∷ ps) = let rest = after_parts rs ps in if text_eq r p then rest else none

-- `p.relative_to(root)`, and `p.is_relative_to(root)` where there is one.
unfoldable pub relative_to : PurePath → PurePath → Option (List Text)
unfolding after_parts
relative_to p root =
    if (if p.absolute then root.absolute else not root.absolute)
    then after_parts root.parts p.parts
    else none

abbrev pub is_relative_to : PurePath → PurePath → Bool
is_relative_to p root = elim (relative_to p root) [ none ↦ false | some ps ↦ true ]

abbrev pub path_eq : PurePath → PurePath → Bool
path_eq p q = (if p.absolute then q.absolute else not q.absolute) && texts_eq p.parts q.parts

-- `p.parts[-n:]` of as many parts as are given.
unfoldable pub ends_in : List Text → List Text → Bool
unfolding texts_eq
ends_in ps [] = texts_eq ps []
ends_in ps (q ∷ qs) = texts_eq ps (q ∷ qs) || ends_in ps qs
