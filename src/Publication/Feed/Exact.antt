-- ===== src/Publication/Feed/Exact.antt =====
-- The feed lists exactly the builds of the index's snapshots, each under its version and tag.
use mathlib.Core.List.Permᴰ
use postgresbuild.Prelude.{
  ◌≡◌, refl, sym, ap, ◌∙◌, Option, some, List, [], ◌∷◌, ◌++◌, ◌⊎◌, ◌↔◌, inl, inr, subst, In, here,
  there, In-append_cases, In-append_left, In-append_right, ok, ok-eq, in-result, traverse,
  traverse-In, In-traverse,
}
use postgresbuild.Prelude.Text.{Text, codes}
use postgresbuild.Prelude.Sort.{sort, sort-perm, In-perm}
use postgresbuild.Version.{postgres_semver}
use postgresbuild.Publication.Record.{Record}
use postgresbuild.Publication.Index.{Snapshot}
use postgresbuild.Publication.Feed.{
  Entry, entry_of, Group, group_entries, Keyed, with_key, later_version, platform_le, Line, line_of,
  snapshot_lines, all_lines,
}
use postgresbuild.Publication.Feed.Groups.{IsHeld, group_entries_cases, group_entries_all}

-- A line lists the artifact, with this date and version.
pub record IsListed (ls : List Line) (date version : Text) (e : Entry) : Type 0 where
  pub line : Line
  pub line_in : In line ls
  pub date_of : line.date ≡ date
  pub version_of : line.version ≡ version
  pub entry_in : In e line.artifacts

-- A record of the snapshot gives the artifact, for this date and version.
pub record IsBuilt (s : Snapshot) (date version : Text) (e : Entry) : Type 0 where
  pub built : Record
  pub built_in : In built s.successful
  pub source_version : Text
  pub entry : entry_of s.tag built ≡ ok (some (source_version, e))
  pub semver : Text
  pub semver_of : postgres_semver source_version ≡ ok semver
  pub date_of : s.published_at ≡ date
  pub version_of : semver ++ (codes "+" ++ s.tag) ≡ version

sorted-In : (es : List Entry) {e : Entry} → In e (sort platform_le es) → In e es
sorted-In es i = In-perm (Permᴰ.symm (sort-perm platform_le es)) i

In-sorted : {e : Entry} (es : List Entry) → In e es → In e (sort platform_le es)
In-sorted es i = In-perm (sort-perm platform_le es) i

-- What a line has of its group.
record IsLine (published_at tag : Text) (k : Keyed) (l : Line) : Type 0 where
  semver : Text
  semver_of : postgres_semver k.group.version ≡ ok semver
  date_of : l.date ≡ published_at
  version_of : l.version ≡ semver ++ (codes "+" ++ tag)
  artifacts_of : l.artifacts ≡ sort platform_le k.group.entries

line_of-IsLine :
    (published_at tag : Text) (k : Keyed) {l : Line}
    → line_of published_at tag k ≡ ok l
    → IsLine published_at tag k l
unfolding line_of
line_of-IsLine published_at tag k h = in-result _ _ h (λ semver e h.
    subst (IsLine published_at tag k) (ok-eq h) (record {
      semver = semver;
      semver_of = e;
      date_of = refl;
      version_of = refl;
      artifacts_of = refl;
    }))

pub with_key-group : (g : Group) {k : Keyed} → with_key g ≡ ok k → g ≡ k.group
unfolding with_key
with_key-group g h = in-result _ _ h (λ _ _ h. ap (λ (x : Keyed). x.group) (ok-eq h))

module _ (s : Snapshot) where
  -- The intermediate lists of a snapshot's lines.
  record Steps (ls : List Line) : Type 0 where
    entries : List (Option (Text × Entry))
    keyed : List Keyed
    entries_of : traverse (entry_of s.tag) s.successful ≡ ok entries
    keyed_of : traverse with_key (group_entries entries []) ≡ ok keyed
    lines_of : traverse (line_of s.published_at s.tag) (sort later_version keyed) ≡ ok ls

  steps : {ls : List Line} → snapshot_lines s ≡ ok ls → Steps ls
  unfolding snapshot_lines
  steps h = in-result _ _ h (λ es p h.
      in-result _ _ h
        (λ ks q h. record { entries = es; keyed = ks; entries_of = p; keyed_of = q; lines_of = h }))

  IsListed-IsBuilt :
      {ls : List Line} {date version : Text} {e : Entry}
      → Steps ls
      → IsListed ls date version e
      → IsBuilt s date version e
  IsListed-IsBuilt {e = e} st h =
      let (k, i, q) =
        traverse-In (line_of s.published_at s.tag) (sort later_version st.keyed) st.lines_of
          h.line_in in
      let l = line_of-IsLine s.published_at s.tag k q in
      let j = In-perm (Permᴰ.symm (sort-perm later_version st.keyed)) i in
      let (g, m, w) = traverse-In with_key (group_entries st.entries []) st.keyed_of j in
      let held : IsHeld k.group.version e (group_entries st.entries []) = record {
        group = g;
        group_in = m;
        version = ap (λ (x : Group). x.version) (with_key-group g w);
        entry_in =
            subst (λ (x : Group). In e x.entries) (sym (with_key-group g w))
              (sorted-In k.group.entries (subst (In e) l.artifacts_of h.entry_in));
      } in
      elim (group_entries_cases st.entries [] held) [
        | inl n ↦
            let (r, o, x) = traverse-In (entry_of s.tag) s.successful st.entries_of n in
            record {
              built = r;
              built_in = o;
              source_version = k.group.version;
              entry = x;
              semver = l.semver;
              semver_of = l.semver_of;
              date_of = sym l.date_of ∙ h.date_of;
              version_of = sym l.version_of ∙ h.version_of;
            }
        | inr n ↦ elim n.group_in [ ]
      ]

  IsBuilt-IsListed :
      {ls : List Line} {date version : Text} {e : Entry}
      → Steps ls
      → IsBuilt s date version e
      → IsListed ls date version e
  IsBuilt-IsListed {e = e} st b =
      let (o, i, q) = In-traverse (entry_of s.tag) s.successful st.entries_of b.built_in in
      let same : o ≡ some (b.source_version, e) = ok-eq (sym q ∙ b.entry) in
      let held = group_entries_all st.entries [] (subst (λ x. In x st.entries) same i) in
      let (k, j, w) =
        In-traverse with_key (group_entries st.entries []) st.keyed_of held.group_in in
      let (line, m, z) =
        In-traverse (line_of s.published_at s.tag) (sort later_version st.keyed) st.lines_of
          (In-perm (sort-perm later_version st.keyed) j) in
      let l = line_of-IsLine s.published_at s.tag k z in
      let v : k.group.version ≡ b.source_version =
        ap (λ (x : Group). x.version) (sym (with_key-group held.group w)) ∙ held.version in
      let t : l.semver ≡ b.semver = ok-eq (sym l.semver_of ∙ ap postgres_semver v ∙ b.semver_of) in
      record {
        line = line;
        line_in = m;
        date_of = l.date_of ∙ b.date_of;
        version_of = l.version_of ∙ ap (λ x. x ++ (codes "+" ++ s.tag)) t ∙ b.version_of;
        entry_in = subst (In e) (sym l.artifacts_of) (
            In-sorted k.group.entries
              (subst (λ (x : Group). In e x.entries) (with_key-group held.group w) held.entry_in));
      }

IsListed-left :
    {ls : List Line} {date version : Text} {e : Entry} (more : List Line)
    → IsListed ls date version e
    → IsListed (ls ++ more) date version e
IsListed-left more l = record {
  line = l.line;
  line_in = In-append_left more l.line_in;
  date_of = l.date_of;
  version_of = l.version_of;
  entry_in = l.entry_in;
}

IsListed-right :
    (ls : List Line) {more : List Line} {date version : Text} {e : Entry}
    → IsListed more date version e
    → IsListed (ls ++ more) date version e
IsListed-right ls l = record {
  line = l.line;
  line_in = In-append_right ls l.line_in;
  date_of = l.date_of;
  version_of = l.version_of;
  entry_in = l.entry_in;
}

IsListed-cases :
    (ls more : List Line) {date version : Text} {e : Entry}
    → IsListed (ls ++ more) date version e
    → IsListed ls date version e ⊎ IsListed more date version e
IsListed-cases ls more l = elim (In-append_cases ls l.line_in) [
  | inl i ↦ inl (record {
    line = l.line;
    line_in = i;
    date_of = l.date_of;
    version_of = l.version_of;
    entry_in = l.entry_in;
  })
  | inr i ↦ inr (record {
    line = l.line;
    line_in = i;
    date_of = l.date_of;
    version_of = l.version_of;
    entry_in = l.entry_in;
  })
]

-- The feed of the snapshots, where it can be made, lists an artifact under a date and a version
-- exactly if a record of some snapshot gives the artifact, the snapshot was published at that
-- date, and the version is the SemVer form of the record's version with the snapshot's tag.
pub all_lines_exact :
    (ss : List Snapshot) (ls : List Line) (date version : Text) (e : Entry)
    → all_lines ss ≡ ok ls
    → IsListed ls date version e ↔ ((s : Snapshot) × In s ss × IsBuilt s date version e)
unfolding all_lines
all_lines_exact [] ls date version e h =
    (λ l. elim (subst (In l.line) (sym (ok-eq h)) l.line_in) [ ], λ b. elim b.1 [ ])
all_lines_exact (s ∷ ss) ls date version e h = in-result _ _ h (λ first p h.
    in-result _ _ h (λ rest q h.
      subst
        (λ out.
          IsListed out date version e ↔ ((x : Snapshot) × In x (s ∷ ss) × IsBuilt x date version e))
        (ok-eq h)
        (
          λ l. elim (IsListed-cases first rest l) [
            | inl k ↦ (s, here refl, IsListed-IsBuilt s (steps s p) k)
            | inr k ↦
                let (x, i, b) = (all_lines_exact ss rest date version e q).0 k in (x, there i, b)
          ],
          λ b. elim b.1 [
            | here w ↦ IsListed-left rest (
                IsBuilt-IsListed s (steps s p)
                  (subst (λ (x : Snapshot). IsBuilt x date version e) w b.2))
            | there i ↦
                IsListed-right first ((all_lines_exact ss rest date version e q).1 (b.0, i, b.2))
          ],
        )))
