-- ===== src/ScopeView/Spec.antt =====
-- The operations of a scope, as a client calls them, and what they mean without a memory.
use data_info.Common.{
  Text, text_eq, ◌≡◌, Bool, true, false, not, ◌&&◌, ◌||◌, any, Option, List, [], ◌∷◌, if◌then◌else◌,
  Error, Result, ok, err, Exec, pure, ◌>>=◌, ◌>>◌,
}
use data_info.Levels.{Permission, AclEntry, Stat}
use data_info.Jobs.{Avu}
use data_info.Jobs.Deleting.{normalize_path}
use data_info.ScopeView.{Row, Catalog, Cache, stat_of, acl_of, stat, stats, acl, acls, avus}
use data_info.ScopeView.Changes.{
  Call, make_dir, set_acl, set_inherit_flag, rename_file, remove_file, remove_dir, move_path,
  checksum_of, Protocol, replace_avu, drop_avu, make_dir_at, set_permission, set_inherit, rename,
  move, delete_file, delete, checksum, set_avu, delete_avus,
}
use data_info.ScopeView.Coherent.{Same}
use data_info.ScopeView.Agrees.{fresh, fresh_stats, fresh_acls}

pub data Op : Type 0 where
  ask_stat ask_acl ask_avus : Text → Op
  ask_stats ask_acls : List Text → Op
  make : Text → Bool → Op
  permit : Text → Text → Permission → Bool → Op
  inherit : Text → Bool → Bool → Op
  rename_one move_one : Text → Text → Op
  remove_one remove_all : Text → Bool → Op
  sum : Text → Op
  tag untag : Text → Avu → Op

pub data Answer : Type 0 where
  stat_is : Stat → Answer
  rows_are : (Text → Option Row) → Answer
  acl_is : List AclEntry → Answer
  acls_are : (Text → List AclEntry) → Answer
  avus_are : List Avu → Answer
  changed : Answer

-- Every operation, whatever the ones before it answered.
unfoldable pub run : {S : Type 0} → (Op → Exec S Answer) → List Op → S → List (Result Answer) × S
run step [] s = ([], s)
run step (op ∷ ops) s = let (r, s') = step op s in let (rs, s'') = run step ops s' in (r ∷ rs, s'')

-- The paths for which an operation may use what is remembered. A bulk lookup uses nothing.
unfoldable pub asks : Op → Text → Bool
asks (ask_stat p) q = text_eq (normalize_path p) q
asks (ask_acl p) q = text_eq (normalize_path p) q
asks (ask_avus p) q = text_eq (normalize_path p) q
asks (permit p u l r) q = r && text_eq (normalize_path (normalize_path p)) q
asks (inherit p i r) q = text_eq (normalize_path (normalize_path p)) q
asks (remove_all p f) q = text_eq (normalize_path (normalize_path p)) q
asks _ q = false

unfoldable pub asked : List Op → Text → Bool
unfolding asks
asked [] q = false
asked (op ∷ ops) q = asks op q || asked ops q

module _ {W : Type 0} (protocol : Protocol W) (catalog : Catalog W) where
  open protocol use {session, perform, is_proxied}

  unfoldable pub through : Op → Exec (Cache × W) Answer
  through (ask_stat p) = stat catalog p >>= λ a. pure (stat_is a)
  through (ask_stats ps) = stats catalog ps >>= λ a. pure (rows_are a)
  through (ask_acl p) = acl catalog p >>= λ a. pure (acl_is a)
  through (ask_acls ps) = acls catalog ps >>= λ a. pure (acls_are a)
  through (ask_avus p) = avus catalog p >>= λ a. pure (avus_are a)
  through (make p r) = make_dir_at protocol catalog p r >> pure changed
  through (permit p u l r) = set_permission protocol catalog p u l r >> pure changed
  through (inherit p i r) = set_inherit protocol catalog p i r >> pure changed
  through (rename_one p q) = rename protocol catalog p q >> pure changed
  through (move_one p q) = move protocol catalog p q >> pure changed
  through (remove_one p f) = delete_file protocol catalog p f >> pure changed
  through (remove_all p f) = delete protocol catalog p f >> pure changed
  through (sum p) = checksum protocol catalog p >> pure changed
  through (tag p a) = set_avu protocol catalog p a >> pure changed
  through (untag p a) = delete_avus protocol catalog p a >> pure changed

  -- What is at a path, asked afresh.
  unfoldable pub look : Text → Exec W Stat
  look p = fresh catalog (catalog.get_item (normalize_path p)) >>= λ row. pure (stat_of row)

  unfoldable pub deep_if : Text → Bool → Exec W Bool
  unfolding look
  deep_if p recurse = if recurse then (look p >>= λ s. pure s.is_dir) else pure false

  unfoldable pub inherit_if : Text → Bool → Bool → Stat → Exec W (Unit {0})
  inherit_if p i r s = if s.is_dir then perform (set_inherit_flag p i r) else pure tt

  unfoldable pub removal : Text → Bool → Bool → Call
  removal p f dir = if dir then remove_dir p true f else remove_file p f

  -- The specification: every question goes to the catalog, and nothing is remembered.
  unfoldable pub straight : Op → Exec W Answer
  unfolding look deep_if inherit_if removal
  straight (ask_stat p) = look p >>= λ a. pure (stat_is a)
  straight (ask_stats ps) = fresh_stats catalog ps >>= λ a. pure (rows_are a)
  straight (ask_acl p) =
      fresh catalog (λ w. acl_of (catalog.perms_for (normalize_path p ∷ []) w)) >>= λ a.
      pure (acl_is a)
  straight (ask_acls ps) = fresh_acls catalog ps >>= λ a. pure (acls_are a)
  straight (ask_avus p) =
      fresh catalog (catalog.list_avus (normalize_path p)) >>= λ a. pure (avus_are a)
  straight (make p r) = perform (make_dir (normalize_path p) r) >> pure changed
  straight (permit p u l r) =
      (fresh catalog session
        >> (deep_if (normalize_path p) r >>= λ deep.
            perform (set_acl (normalize_path p) l u deep (not is_proxied))))
      >> pure changed
  straight (inherit p i r) =
      (fresh catalog session >> (look (normalize_path p) >>= inherit_if (normalize_path p) i r))
      >> pure changed
  straight (rename_one p q) =
      perform (rename_file (normalize_path p) (normalize_path q)) >> pure changed
  straight (move_one p q) =
      perform (move_path (normalize_path p) (normalize_path q)) >> pure changed
  straight (remove_one p f) = perform (remove_file (normalize_path p) f) >> pure changed
  straight (remove_all p f) =
      (fresh catalog session
        >> (look (normalize_path p) >>= λ s. perform (removal (normalize_path p) f s.is_dir)))
      >> pure changed
  straight (sum p) = perform (checksum_of (normalize_path p)) >> pure changed
  straight (tag p a) = replace_avu protocol catalog (normalize_path p) a >> pure changed
  straight (untag p a) = drop_avu protocol catalog (normalize_path p) a >> pure changed

  -- In the world `w`, the effect changes nothing that the catalog says of the paths of `later`, but, when
  -- it succeeds, of the paths `ps`.
  pub record Local (later : Text → Bool) (w : W) (m : Exec W (Unit {0})) (ps : List Text)
      : Type 0 where
    pub succeeds :
        (m w).0 ≡ ok tt
        → (p : Text) → later p ≡ true
        → any (text_eq p) ps ≡ false
        → Same catalog w (m w).1 p
    pub fails :
        (e : Error) → (m w).0 ≡ err e → (p : Text) → later p ≡ true → Same catalog w (m w).1 p

  -- What an operation does in the world `w` stays within the paths that it forgets, as far as `later` asks.
  unfoldable pub IsLocal : (Text → Bool) → W → Op → Type 0
  unfolding look deep_if removal
  IsLocal later w (ask_stat p) = Unit
  IsLocal later w (ask_stats ps) = Unit
  IsLocal later w (ask_acl p) = Unit
  IsLocal later w (ask_acls ps) = Unit
  IsLocal later w (ask_avus p) = Unit
  IsLocal later w (make p r) =
      Local later w (perform (make_dir (normalize_path p) r)) (normalize_path p ∷ [])
  IsLocal later w (permit p u l r) =
      (deep : Bool)
      → (deep_if (normalize_path p) r w).0 ≡ ok deep
      → Local later w (perform (set_acl (normalize_path p) l u deep (not is_proxied)))
          (normalize_path p ∷ [])
  IsLocal later w (inherit p i r) =
      (s : Stat)
      → (look (normalize_path p) w).0 ≡ ok s
      → s.is_dir ≡ true
      → Local later w (perform (set_inherit_flag (normalize_path p) i r)) (normalize_path p ∷ [])
  IsLocal later w (rename_one p q) =
      Local later w (perform (rename_file (normalize_path p) (normalize_path q)))
        (normalize_path p ∷ normalize_path q ∷ [])
  IsLocal later w (move_one p q) =
      Local later w (perform (move_path (normalize_path p) (normalize_path q)))
        (normalize_path p ∷ normalize_path q ∷ [])
  IsLocal later w (remove_one p f) =
      Local later w (perform (remove_file (normalize_path p) f)) (normalize_path p ∷ [])
  IsLocal later w (remove_all p f) =
      (s : Stat)
      → (look (normalize_path p) w).0 ≡ ok s
      → Local later w (perform (removal (normalize_path p) f s.is_dir)) (normalize_path p ∷ [])
  IsLocal later w (sum p) =
      Local later w (perform (checksum_of (normalize_path p))) (normalize_path p ∷ [])
  IsLocal later w (tag p a) =
      Local later w (replace_avu protocol catalog (normalize_path p) a) (normalize_path p ∷ [])
  IsLocal later w (untag p a) =
      Local later w (drop_avu protocol catalog (normalize_path p) a) (normalize_path p ∷ [])

  -- In a run from `w`, no operation changes what a later one asks for behind the scope's back.
  unfoldable pub Quiet : List Op → W → Type 0
  unfolding IsLocal straight
  Quiet [] w = Unit
  Quiet (op ∷ ops) w = IsLocal (asked ops) w op × Quiet ops (straight op w).1
