-- ===== src/Handlers/Creates/Planned.antt =====
-- The walk up from a collection that is to be created.
use mathlib.Core.List.{append_assoc}
use data_info.Common.{
  ℕ, zero, suc, Text, text_eq, length, ◌≡◌, refl, sym, ap, ◌∙◌, subst, Bool, true, false, ◌||◌,
  Option, some, List, [], ◌∷◌, ◌++◌, if◌then◌else◌, arith, ok, pure, err_exists, inl, inr,
}
use data_info.GoText.{slash}
use data_info.Paths.{dir}
use data_info.Levels.{Stat}
use data_info.Jobs.Extant.{Lasts, dir-Lasts}
use data_info.Handlers.Checks.{Tells, pure-Tells, post-Tells, after_lookup, refuse_if-Tells}
use data_info.Handlers.Creates.{DirScope, CreatePlan, climb, plan_create}

-- Above it there is only the root.
abbrev pub is_top : Text → Bool
is_top p = text_eq (dir p) p || text_eq (dir p) (slash ∷ [])

-- The way up from a path: the collections on it that are not there, deepest first, and the one above
-- them that is; or the root, when none below it is there.
pub data Walk (look : Text → Stat) : Text → List Text → Text → Type 0 where
  found : (p : Text) → (look p).exists ≡ true → Walk look p [] p
  top : (p : Text) → (look p).exists ≡ false → is_top p ≡ true → Walk look p (p ∷ []) (slash ∷ [])
  up :
      (p : Text) (ps : List Text) (above : Text)
      → (look p).exists ≡ false
      → is_top p ≡ false
      → Walk look (dir p) ps above
      → Walk look p (p ∷ ps) above

pub last_or : Text → List Text → Text
last_or d [] = d
last_or d (p ∷ ps) = last_or p ps

-- The path is not there; the collections to create are those missing on the way up from it, and hang
-- from the first one that is there; the topmost of them, the last, is the one that the user is to own.
pub record IsPlan (look : Text → Stat) (path : Text) (plan : CreatePlan) : Type 0 where
  pub of : plan.path ≡ path
  pub new : (look path).exists ≡ false
  pub walk : Walk look path plan.to_create plan.existing_ancestor
  pub topmost : plan.shallowest_created ≡ last_or [] plan.to_create

-- What the loop adds to the collections found so far.
record Climbed (look : Text → Stat) (path current : Text) (made : List Text) (shallowest : Text)
    (plan : CreatePlan) : Type 0 where
  of : plan.path ≡ path
  rest : List Text
  all : plan.to_create ≡ made ++ rest
  walk : Walk look current rest plan.existing_ancestor
  topmost : plan.shallowest_created ≡ last_or shallowest rest

append-nil : (l : List Text) → l ++ [] ≡ l
append-nil [] = refl
append-nil (x ∷ l) = ap (λ t. x ∷ t) (append-nil l)

-- While P holds of the world, the data store answers a Stat with `look`.
module _ {W : Type 0} (scope : DirScope W) (P : W → Type 0) (look : Text → Stat)
    (tells : (p : Text) → Tells P (scope.view.store.stat p) (λ s. s ≡ look p)) where
  abbrev HasPlan : (CreatePlan → Type 0) → Option CreatePlan → Type 0
  HasPlan Q o = (plan : CreatePlan) × ((o ≡ some plan) × Q plan)

  climb-Tells :
      (fuel : ℕ) (path current : Text) (made : List Text) (shallowest : Text)
      → Lasts current fuel
      → Tells P
          (climb scope fuel path current made shallowest)
          (HasPlan (Climbed look path current made shallowest))
  unfolding climb Lasts last_or
  climb-Tells zero path current made shallowest (inl (e, k)) = absurd (omega (arith, k))
  climb-Tells zero path current made shallowest (inr k) = absurd (omega (arith, k))
  climb-Tells (suc fuel) path current made shallowest lasts =
      after_lookup _ _ (tells current) (λ s e.
        from s.exists (is_top current) refl (ap (λ (t : Stat). t.exists) (sym e))
          (λ l. climb-Tells fuel path (dir current) (made ++ current ∷ []) current l))
    where
      from :
          (b c : Bool)
          → is_top current ≡ c
          → (look current).exists ≡ b
          → (Lasts (dir current) fuel
              → Tells P
                  (climb scope fuel path (dir current) (made ++ current ∷ []) current)
                  (HasPlan (Climbed look path (dir current) (made ++ current ∷ []) current)))
          → Tells P
              (if b
                then pure (
                    some (record {
                      path = path;
                      existing_ancestor = current;
                      to_create = made;
                      shallowest_created = shallowest;
                    }))
                else if c
                then pure (
                    some (record {
                      path = path;
                      existing_ancestor = slash ∷ [];
                      to_create = made ++ current ∷ [];
                      shallowest_created = current;
                    }))
                else climb scope fuel path (dir current) (made ++ current ∷ []) current)
              (HasPlan (Climbed look path current made shallowest))
      from true c r e later = pure-Tells _ (
        _,
        (
          refl,
          record {
            of = refl;
            rest = [];
            all = sym (append-nil made);
            walk = found current e;
            topmost = refl;
          },
        ),
      )
      from false true r e later = pure-Tells _ (
        _,
        (
          refl,
          record {
            of = refl;
            rest = current ∷ [];
            all = refl;
            walk = top current e r;
            topmost = refl;
          },
        ),
      )
      from false false r e later =
          post-Tells (later (dir-Lasts current fuel (ground (arith, r)) lasts)) (λ o (plan, (q, c)).
            (
              plan,
              (
                q,
                record {
                  of = c.of;
                  rest = current ∷ c.rest;
                  all = c.all ∙ append_assoc made (current ∷ []) c.rest;
                  walk = up current c.rest plan.existing_ancestor e r c.walk;
                  topmost = c.topmost;
                },
              ),
            ))

  -- planCreate answers with a plan, without running out of fuel.
  pub plan_create-Tells :
      (path : Text) → Tells P (plan_create scope path) (HasPlan (IsPlan look path))
  unfolding plan_create Lasts
  plan_create-Tells path = after_lookup _ _ (tells path) (λ s e.
      after_lookup _ _ (refuse_if-Tells P s.exists err_exists (path ∷ [])) (λ a h.
        post-Tells (climb-Tells (suc (suc (length path))) path path [] [] (inr (omega arith)))
          (λ o (plan, (q, c)). (
            plan,
            (
              q,
              record {
                of = c.of;
                new = ap (λ (t : Stat). t.exists) (sym e) ∙ h;
                walk = subst (λ l. Walk look path l plan.existing_ancestor) (sym c.all) c.walk;
                topmost = c.topmost ∙ ap (last_or []) (sym c.all);
              },
            ),
          ))))

  -- While every stat answers what is there, an answer of planCreate is a plan, which the walk up has
  -- found without running out of fuel: the path is not there; to be created are all those missing on the
  -- way up from it, deepest first; they hang from the first collection on the way that is there, or from
  -- the root when none below it is; and the user is to own the topmost of them.
  pub plan_create-IsPlan :
      (path : Text) (w : W) (o : Option CreatePlan)
      → P w
      → (plan_create scope path w).0 ≡ ok o
      → (plan : CreatePlan) × ((o ≡ some plan) × IsPlan look path plan)
  plan_create-IsPlan path w o p e = ((plan_create-Tells path).run w p o e).1
