-- ===== src/Stats/Tests.antt =====
-- A file that its reader does not own, with an access list that cannot be read.
use data_info.Common.{Text, lit, ◌≡◌, refl, false, pos, none, [], ok, err, plain, List, Exec}
use data_info.Levels.{read, AclEntry}
use data_info.Stats.{FullStat, StatView, StatOptions, all_stat_fields, stat_of}
use data_info.Stats.Private.{changed, stat_of-private}

abbrev found : FullStat
found = record {
  path = lit "/z/a";
  uuid = lit "1";
  kind = lit "file";
  created = pos 1;
  modified = pos 2;
  permission = read;
  size = pos 3;
  checksum = none;
  info_type = [];
}

abbrev view : StatView (Unit {0})
view = record {
  stat = λ p w. (ok found, w);
  acl = λ p w. (ok [], w);
  child_counts = λ p w. (ok (record { files = 0; dirs = 0 }), w);
}

abbrev unreadable : Text → Exec (Unit {0}) (List AclEntry)
unreadable p w = (err (plain "down"), w)

abbrev options : StatOptions
options = record {
  fields = all_stat_fields;
  layout = record { zone = lit "z"; home = lit "/z/home"; community_data = lit "/z/home/shared" };
  perms_filter = λ u. false;
}

stat_of-private_example :
    stat_of (λ name. lit "text/plain") view (lit "u") options (lit "/z/a") tt
    ≡ stat_of
        (λ name. lit "text/plain")
        (changed (λ name. lit "text/plain") view (lit "u") options unreadable)
        (lit "u")
        options
        (lit "/z/a")
        tt
stat_of-private_example =
    stat_of-private (λ name. lit "text/plain") view (lit "u") options unreadable (lit "/z/a") tt tt
      found refl refl
