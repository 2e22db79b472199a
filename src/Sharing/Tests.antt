-- ===== src/Sharing/Tests.antt =====
-- A share, in a small zone.
use data_info.Common.{
  ◌≤◌, Text, lit, text_eq, refl, Bool, true, false, [], ◌∷◌, arith, ok, Exec, has_prefix, ◌>>=◌,
  pure, wrapping,
}
use data_info.Paths.{in_trash, is_within, trash_base, join, dir, is_trash_base, equal}
use data_info.GoText.{trim_right, path_join, path_dir, clean, count_slash, join_slash, split}
use data_info.Permissions.{permission_of, ancestors_of, ancestors_from}
use data_info.Levels.{write, own, level_in, Stat, rank}
use data_info.Permissions.MemoryStore.{Memory, memory_level, memory_store, memory-StoreLaws}
use data_info.Sharing.{
  ShareRequest, share, share_path, grant_navigation, grant_navigation_up, owner_home_of,
}
use data_info.Sharing.Reach.{share-reaches}

abbrev request : ShareRequest
request = record {
  owner = lit "a";
  sharee = lit "b";
  target = lit "/z/home/a/d/x";
  permission = write;
  admin_users = λ u. false;
  proxy_user = lit "de";
  layout = record { zone = lit "z"; home = lit "/z/home"; community_data = lit "/z/home/shared" };
}

abbrev private_world : Memory
private_world = record {
  lists = λ p. record { user = lit "a"; permission = own } ∷ [];
  removed = [];
}

abbrev a_file : Text → Exec Memory Stat
a_file p w = (ok (record { exists = true; is_dir = false; permission = own }), w)

abbrev no_inherit : Text → Bool → Bool → Exec Memory (Unit {0})
no_inherit p b r w = (ok tt, w)

abbrev after_share : Memory
after_share = (share memory_store a_file no_inherit request private_world).1

share-reaches_example :
    1 ≤ rank (memory_level after_share (owner_home_of (lit "/z/home/a/d/x")) (lit "b"))
unfolding text_eq has_prefix ◌>>=◌ pure wrapping in_trash is_within trash_base join dir
    is_trash_base equal trim_right path_join path_dir clean count_slash join_slash split
    permission_of ancestors_of ancestors_from memory_store level_in
share-reaches_example =
    (share-reaches memory_store a_file no_inherit memory_level memory-StoreLaws (λ p w. refl)
      (λ p b r w. refl) request private_world after_share (omega arith)
      (unfold share share_path grant_navigation grant_navigation_up in refl)).1
