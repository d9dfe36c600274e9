-- ===== src/Publication/Fragment/Valid.antt =====
-- What a fragment that passes `validate_fragment` is known to hold.
use postgresbuild.Prelude.{
  ◌≡◌, ap, Option, none, some, ok, ok-eq, in-check, in-call, in-value, in-result, subst,
}
use postgresbuild.Prelude.Text.{Text, codes}
use postgresbuild.Json.{
  Json, str, obj, null, bool, int, arr, Fields, lookup, or_null, get, as_dict, as_str,
}
use postgresbuild.Publication.Platform.{Platform}
use postgresbuild.Publication.Fragment.{Fragment, validate_fragment}

as_dict-eq : (v : Json) {m : Fields} → as_dict v ≡ some m → v ≡ obj m
as_dict-eq (obj m) e = cc
as_dict-eq (arr vs) e = cc
as_dict-eq (str s) e = cc
as_dict-eq null e = cc
as_dict-eq (bool b) e = cc
as_dict-eq (int n) e = cc

as_str-eq : (v : Json) {s : Text} → as_str v ≡ some s → v ≡ str s
as_str-eq (str s) e = cc
as_str-eq (obj m) e = cc
as_str-eq (arr vs) e = cc
as_str-eq null e = cc
as_str-eq (bool b) e = cc
as_str-eq (int n) e = cc

text_entry : (o : Option Json) {s : Text} → as_str (or_null o) ≡ some s → o ≡ some (str s)
text_entry none e = cc
text_entry (some v) e = ap some (as_str-eq v e)

module _ (platform : Platform) (repository : Text) where
  -- The dict is kept, and it names the tag, which has the form of a snapshot's.
  pub validate_fragment-tag :
      (v : Json) {f : Fragment}
      → validate_fragment platform repository v ≡ ok f
      → (v ≡ obj f.source) × (lookup (codes "tag") f.source ≡ some (str f.tag))
  unfolding validate_fragment get
  validate_fragment-tag v h = in-value _ _ _ h (λ m v_m h. in-check _ _ _ h (λ _ h.
      in-value _ _ _ h (λ tag m_tag h. in-value _ _ _ h (λ _ _ h. in-check _ _ _ h (λ _ h.
        in-value _ _ _ h (λ _ _ h. in-value _ _ _ h (λ _ _ h. in-check _ _ _ h (λ _ h.
          in-check _ _ _ h (λ _ h. in-call _ _ h (λ _ h. in-check _ _ _ h (λ _ h.
            in-result _ _ h (λ _ _ h. in-check _ _ _ h (λ _ h.
              let e = ok-eq h in
              subst
                (λ (x : Fragment).
                  (v ≡ obj x.source) × (lookup (codes "tag") x.source ≡ some (str x.tag)))
                e (as_dict-eq v v_m, text_entry (lookup (codes "tag") m) m_tag))))))))))))))
