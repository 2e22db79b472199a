-- ===== src/Handlers/Uploads/Tests.antt =====
-- Uploads to a store in memory.
use data_info.Common.{
  Text, lit, text_eq, ◌≡◌, refl, ap, subst, ◌⊎◌, inl, Bool, true, false, not, any, keep, none, List,
  [], ◌∷◌, arith, Error, Result, ok, err, ◌>>=◌,
}
use data_info.Levels.{none_held}
use data_info.Handlers.{View}
use data_info.Handlers.Uploads.{UploadScope, write_through, cleanup_schedule, cleanup}
use data_info.Handlers.Uploads.Atomic.{Staging, write_through-whole}
use data_info.Handlers.Uploads.Cleanup.{Truthful, cleanup-gone}

record Store : Type 0 where
  pub objects : List Text
  pub summed : List Text
  pub owned : List Text
  pub scheduled : Bool

abbrev view : View Store
view = record {
  store = record {
    stat = λ p w. (ok (record { exists = false; is_dir = false; permission = none_held }), w);
    avus = λ p w. (ok [], w);
  };
  stats = λ ps w. (ok (λ p. none), w);
  user_exists = λ u w. (ok true, w);
  children = λ p w. (ok [], w);
  paths_for_uuids = λ ids w. (ok (λ id. none), w);
}

abbrev scope : UploadScope Store
scope = record {
  view = view;
  write_file = λ p body w. (ok tt, record w { objects = p ∷ w.objects });
  checksum = λ p w. (ok (lit "sum"), record w { summed = p ∷ w.summed });
  set_owner = λ p user w. (ok tt, record w { owned = p ∷ w.owned });
  rename = λ p q w.
      (ok tt, record w { objects = q ∷ w.objects; summed = q ∷ w.summed; owned = q ∷ w.owned });
  file_exists = λ p w. (ok (any (text_eq p) w.objects), w);
  delete_file =
      λ p force w. (ok tt, record w { objects = keep (λ q. not (text_eq p q)) w.objects });
  close = λ w. w;
}

abbrev schedule : Text → Store → Store
schedule p w = record w { scheduled = true }

abbrev Absent : Text → Store → Type 0
Absent p w = any (text_eq p) w.objects ≡ false

abbrev Summed : Text → Store → Type 0
Summed p w = any (text_eq p) w.summed ≡ true

abbrev Owned : Text → Store → Type 0
Owned p w = any (text_eq p) w.owned ≡ true

abbrev Scheduled : Store → Type 0
Scheduled w = w.scheduled ≡ true

abbrev temp : Text
temp = lit "/z/.a.partial-1"

staging :
    Staging scope schedule
      (Absent (lit "/z/a"))
      Summed
      Owned
      Scheduled
      temp
      (lit "/z/a")
      (lit "u")
      (lit "x")
unfolding text_eq
staging = record {
  write_keeps = record { after = λ w h. h };
  checksum_keeps = record { after = λ w h. h };
  owner_keeps = record { after = λ w h. h };
  rename_keeps = λ w w' e q h. absurd (cc q);
  schedule_keeps = λ w h. h;
  sums = λ w w' s q. subst (Summed temp) (ap (λ z. z.1) q) refl;
  owns = λ w w' q h. subst (λ v. Summed temp v × Owned temp v) (ap (λ z. z.1) q) (h, refl);
  moves = λ w w' q h k.
      subst (λ v. Summed (lit "/z/a") v × Owned (lit "/z/a") v) (ap (λ z. z.1) q) (refl, refl);
  schedules = λ w. refl;
}

abbrev empty : Store
empty = record { objects = []; summed = []; owned = []; scheduled = false }

write_through-whole_example :
    (((write_through scope schedule temp (lit "u") (lit "/z/a") (lit "x") empty).0 ≡ ok tt)
      × Summed
          (lit "/z/a")
          (write_through scope schedule temp (lit "u") (lit "/z/a") (lit "x") empty).1
      × Owned
          (lit "/z/a")
          (write_through scope schedule temp (lit "u") (lit "/z/a") (lit "x") empty).1)
    ⊎ ((e : Error) × ((write_through scope schedule temp (lit "u") (lit "/z/a") (lit "x") empty).0
          ≡ err e)
        × Absent
            (lit "/z/a")
            (write_through scope schedule temp (lit "u") (lit "/z/a") (lit "x") empty).1
        × Scheduled (write_through scope schedule temp (lit "u") (lit "/z/a") (lit "x") empty).1)
write_through-whole_example =
    write_through-whole scope schedule (Absent (lit "/z/a")) Summed Owned Scheduled temp
      (lit "/z/a") (lit "u") (lit "x") staging empty refl

truthful : Truthful (Absent temp) temp scope
truthful = record {
  tells = λ w w' e. subst (Absent temp) (ap (λ z. z.1) e) (ground (arith, ap answer e));
  close_keeps = λ w h. h;
}
  where
    answer : Result Bool × Store → Bool
    answer (ok b, w) = b
    answer (err e, w) = true

abbrev left_over : Store
left_over = record empty { objects = temp ∷ [] }

cleanup-gone_example :
    Absent temp
      (cleanup (λ w. (ok scope, w)) (λ wait w. (true, w)) cleanup_schedule temp left_over).1
unfolding cleanup text_eq ◌>>=◌
cleanup-gone_example =
    cleanup-gone (Absent temp) temp (λ w. (ok scope, w))
      (record { of = λ w s e. subst (Truthful (Absent temp) temp) (ap scope_in e) truthful })
      (λ wait w. (true, w)) cleanup_schedule left_over (inl refl)
  where
    scope_in : Result (UploadScope Store) → UploadScope Store
    scope_in (ok s) = s
    scope_in (err e) = scope
