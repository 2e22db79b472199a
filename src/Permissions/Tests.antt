-- ===== src/Permissions/Tests.antt =====
-- The theorems about a repair after a move, in a small zone.
use data_info.Common.{lit, text_eq, ◌≡◌, refl, false, some, [], ◌∷◌, arith}
use data_info.Paths.{Layout, dir}
use data_info.GoText.{count_slash, path_dir, trim_right}
use data_info.GoText.Canonical.{IsElement, absolute}
use data_info.Levels.{read, write, own, level_in}
use data_info.Permissions.{MoveContext, ancestors_from, ancestors_of, ignores, repair_permissions}
use data_info.Permissions.MemoryStore.{Memory, memory_level, memory_store, memory-StoreLaws}
use data_info.Permissions.Ancestors.{ancestors_of-below}
use data_info.Permissions.Climb.{climb, ancestors_of-climb}
use data_info.Permissions.Untouched.{repair_permissions-level}
use data_info.Permissions.Downgrade.{repair_permissions-keeps_write}

abbrev zone : Layout
zone = record { zone = lit "z"; home = lit "/z/home"; community_data = lit "/z/home/shared" }

abbrev one_move : MoveContext
one_move = record {
  source = lit "/z/home/a/x";
  destination = lit "/z/home/a/d/x";
  user = lit "a";
  admin_users = λ u. text_eq u (lit "root");
  proxy_user = lit "de";
  layout = zone;
}

-- Everywhere "a" owns, "b" may write and "c" may read.
abbrev shared_world : Memory
shared_world = record {
  lists = λ p.
      record { user = lit "a"; permission = own }
      ∷ record { user = lit "b"; permission = write }
      ∷ record { user = lit "c"; permission = read }
      ∷ [];
  removed = [];
}

repair_permissions-level_example :
    memory_level
      (repair_permissions memory_store one_move shared_world).1
      (lit "/z/home/a")
      (lit "a")
    ≡ memory_level shared_world (lit "/z/home/a") (lit "a")
repair_permissions-level_example =
    repair_permissions-level memory_store memory_level memory-StoreLaws one_move shared_world
      (lit "/z/home/a") (lit "a") (unfold ignores text_eq in refl)

repair_permissions-keeps_write_example :
    memory_level
      (repair_permissions memory_store one_move shared_world).1
      (lit "/z/home/a/d")
      (lit "b")
    ≡ memory_level shared_world (lit "/z/home/a/d") (lit "b")
repair_permissions-keeps_write_example =
    repair_permissions-keeps_write memory_store memory_level memory-StoreLaws one_move shared_world
      (lit "/z/home/a/d") (lit "b") (λ x. unfold memory_store in refl)
      (λ x. unfold memory_store in refl) (unfold level_in text_eq in omega arith)

ancestors_of-below_example :
    ancestors_from 10 (λ p. false) (lit "/z/home/a")
    ≡ some (ancestors_of (lit "/z/home/a/x") (λ p. false))
unfolding dir path_dir trim_right text_eq
ancestors_of-below_example = (ancestors_of-below (lit "/z/home/a/x") (λ p. false)).0

zone-IsElement : IsElement (lit "z")
unfolding count_slash text_eq
zone-IsElement = record { slashless = refl; filled = refl; not_dot = refl; not_dot_dot = refl }

home-IsElement : IsElement (lit "home")
unfolding count_slash text_eq
home-IsElement = record { slashless = refl; filled = refl; not_dot = refl; not_dot_dot = refl }

ancestors_of-climb_example :
    ancestors_of (absolute (lit "z" ∷ lit "home" ∷ lit "a" ∷ [])) (λ p. false)
    ≡ climb (λ p. false) (lit "home" ∷ lit "z" ∷ [])
ancestors_of-climb_example =
    ancestors_of-climb (lit "z" ∷ lit "home" ∷ []) (lit "a") (λ p. false)
      (zone-IsElement, (home-IsElement, tt))
      (record {
        slashless = unfold count_slash in refl;
        filled = unfold text_eq in refl;
        not_dot = unfold text_eq in refl;
        not_dot_dot = unfold text_eq in refl;
      })
