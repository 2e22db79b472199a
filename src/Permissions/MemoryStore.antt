-- ===== src/Permissions/MemoryStore.antt =====
-- A data store in memory, which keeps the laws: every path has its access list.
use data_info.Common.{
  Text, text_eq, text_eq_iff, text_eq_refl, ◌≡◌, refl, sym, ap, ◌∙◌, Bool, false, ◌&&◌, ◌||◌, List,
  [], ◌∷◌, map, if◌then◌else◌, arith, Result, ok, err,
}
use data_info.Paths.{is_within}
use data_info.Levels.{Permission, AclEntry, level_in}
use data_info.Permissions.{PermissionStore}
use data_info.Permissions.Laws.{StoreLaws}

pub record Memory : Type 0 where
  pub lists : Text → List AclEntry
  pub removed : List Text

abbrev pub memory_level : Memory → Text → Text → Permission
memory_level w p u = level_in u (w.lists p)

reached : Bool → Text → Text → Bool
reached recurse p q = text_eq q p || (recurse && is_within q p)

set_lists : (Text → List AclEntry) → Text → Text → Permission → Bool → Text → List AclEntry
unfolding reached
set_lists lists p u l recurse q =
    if reached recurse p q then record { user = u; permission = l } ∷ lists q else lists q

unfoldable pub memory_store : PermissionStore Memory
unfolding set_lists
memory_store = record {
  acl = λ p w. (ok (w.lists p), w);
  acls = λ ps w. (ok (map (λ p. (p, w.lists p)) ps), w);
  inherits = λ p w. (ok false, w);
  children = λ p w. (ok [], w);
  set_permission = λ p u l recurse w. (ok tt, record w { lists = set_lists w.lists p u l recurse });
}

value_of : List AclEntry → Result (List AclEntry) → List AclEntry
value_of d (ok a) = a
value_of d (err e) = d

pub memory-StoreLaws : StoreLaws memory_store memory_level
unfolding memory_store level_in set_lists reached value_of
memory-StoreLaws = record {
  acl_keeps = λ p w. refl;
  acls_keeps = λ p w. refl;
  inherits_keeps = λ p w. refl;
  children_keeps = λ p w. refl;
  acl_tells = λ p w w' es e u. ap (λ r. level_in u (value_of es r.0)) (sym e);
  set_other = λ p u l r w q v n. ground (arith, text_eq_iff u v, λ (e : u ≡ v). n (sym e));
  set_elsewhere = λ p u l w q v n. ground (arith, text_eq_iff q p);
  set_or_keep = λ p u l r w q v. ground arith;
  set_done = λ p u l r w w' e.
      ap (λ z. memory_level z.1 p u) (sym e) ∙ ground (arith, text_eq_refl p, text_eq_refl u);
}
