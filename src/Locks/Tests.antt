-- ===== src/Locks/Tests.antt =====
-- The lock check on a task that renames a collection.
use data_info.Common.{lit, text_eq, ◌≡◌, refl, any, keep, List, [], ◌∷◌, ok, Exec, true}
use data_info.Tasks.{text, end, field, Task, Filter, type_rename}
use data_info.GoText.{trim_right, split}
use data_info.Locks.{conflicts, paths_of, report, validate}
use data_info.Locks.Check.{below, conflicts_iff, validate_lem}

abbrev renaming : Task
renaming = record {
  id = lit "1";
  kind = type_rename;
  username = lit "a";
  body =
      field (lit "source") (text (lit "/z/a/b"))
        (field (lit "destination") (text (lit "/z/a/c")) end);
}

abbrev answers : Filter → Exec (Unit {0}) (List Task)
answers f w = (ok (renaming ∷ []), w)

validate_lem_example :
    (validate answers (lit "/z/a" ∷ lit "/z/d" ∷ []) tt).0
    ≡ report (
        keep
          (λ p. any (λ t. any (conflicts p) (paths_of t)) (renaming ∷ []))
          (lit "/z/a" ∷ lit "/z/d" ∷ []))
validate_lem_example =
    validate_lem answers (lit "/z/a" ∷ lit "/z/d" ∷ []) tt tt (renaming ∷ []) refl

conflicts_iff_example : conflicts (lit "/z/a/b/") (lit "/z/a") ≡ true
unfolding trim_right text_eq
conflicts_iff_example =
    (conflicts_iff (lit "/z/a/b/") (lit "/z/a")).1
      ((λ e. cc e), (λ e. cc e), below (lit "b" ∷ []) (unfold split in refl))
