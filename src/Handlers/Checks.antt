-- ===== src/Handlers/Checks.antt =====
-- What a check that lets a request go on has established.
use data_info.Common.{
  Text, ◌≡◌, refl, ap, Bool, true, false, not, List, [], ◌∷◌, All, keep, arith, Result, ok, err,
  Exec, pure, raise, subst, ◌>>=◌, continue, Code, Yields, Preserves, pure-Preserves,
  raise-Preserves, Ensures, pure-Ensures, post-Ensures, bind-Ensures,
}
use data_info.Handlers.{refuse_some, refuse_if}

module _ {W A B : Type 0} where
  continued :
      {Q : A → Type 0} {R : B → Type 0} (r : Result A) (n : A → Exec W B)
      → ((a : A) → r ≡ ok a → Q a)
      → ((a : A) → Q a → Yields R (n a))
      → (w : W) (b : B) → (continue r n w).0 ≡ ok b
      → R b
  continued (ok a) n h k w b e = (k a (h a refl)).of w b e
  continued (err x) n h k w b e = cc e

  -- The rest of the block may use what the check has established.
  pub after_check :
      {Q : A → Type 0} {R : B → Type 0} (m : Exec W A) (n : A → Exec W B)
      → Yields Q m
      → ((a : A) → Q a → Yields R (n a))
      → Yields R (m >>= n)
  unfolding ◌>>=◌
  after_check m n h k = record { of = λ w b e. continued (m w).0 n (h.of w) k (m w).1 b e }

pub none_pass : (f : Text → Bool) (l : List Text) → keep f l ≡ [] → All (λ p. f p ≡ false) l
none_pass f [] e = tt
none_pass f (p ∷ l) e = (ground (arith, e), none_pass f l (ground (arith, e)))

module _ {W : Type 0} where
  pub refuse_some-Checks :
      (code : Code) (f : Text → Bool) (l : List Text)
      → Yields (λ a. All (λ p. f p ≡ false) l) (refuse_some {W = W} code (keep f l))
  unfolding refuse_some raise
  refuse_some-Checks code f l = record { of = λ w a e. none_pass f l (none_kept (keep f l) w a e) }
    where
      none_kept : (m : List Text) (w : W) (a : Unit {0}) → (refuse_some code m w).0 ≡ ok a → m ≡ []
      none_kept [] w a e = refl
      none_kept (p ∷ m) w a e = cc e

  pub refuse_if-Checks :
      (b : Bool) (code : Code) (l : List Text)
      → Yields (λ a. b ≡ false) (refuse_if {W = W} b code l)
  unfolding refuse_if raise
  refuse_if-Checks true code l = record { of = λ w a e. cc e }
  refuse_if-Checks false code l = record { of = λ w a e. refl }

pub All-true :
    (f : Text → Bool) (l : List Text) → All (λ p. not (f p) ≡ false) l → All (λ p. f p ≡ true) l
All-true f [] h = tt
All-true f (p ∷ l) h = (ground (arith, h.0), All-true f l h.1)

abbrev pub value : {A : Type 0} → A → Result A → A
value d (ok a) = a
value d (err e) = d

pub same_value : {A : Type 0} {a b : A} → ok a ≡ ok b → a ≡ b
same_value {A} {a} e = ap (value a) e

pub post-Yields :
    {W A : Type 0} {Q R : A → Type 0} {m : Exec W A}
    → Yields Q m
    → ((a : A) → Q a → R a)
    → Yields R m
post-Yields h k = record { of = λ w a e. k a (h.of w a e) }

-- A lookup of the data store that keeps what holds of the world, and whose answer satisfies Q.
abbrev pub Tells : {W A : Type 0} → (W → Type 0) → Exec W A → (A → Type 0) → Type 0
Tells P m Q = Ensures P m (λ a w. P w × Q a)

module _ {W A : Type 0} {P : W → Type 0} where
  pub pure-Tells : {Q : A → Type 0} (a : A) → Q a → Tells P (pure a) Q
  pure-Tells {Q} a q = pure-Ensures a (λ w p b e. (p, subst Q e q))

  -- What a block keeps, and what its answer satisfies in every world.
  pub kept-Tells : {Q : A → Type 0} {m : Exec W A} → Preserves P m → Yields Q m → Tells P m Q
  kept-Tells h k = record { run = λ w p a e. (h.after w p, k.of w a e) }

  pub post-Tells :
      {Q R : A → Type 0} {m : Exec W A} → Tells P m Q → ((a : A) → Q a → R a) → Tells P m R
  post-Tells h k = post-Ensures h (λ a w x. (x.0, k a x.1))

module _ {W A B : Type 0} {P : W → Type 0} where
  -- The rest of the block starts from the same facts, and may use what the lookup has established.
  pub after_lookup :
      {Q : A → Type 0} {R : B → W → Type 0} (m : Exec W A) (n : A → Exec W B)
      → Tells P m Q
      → ((a : A) → Q a → Ensures P (n a) R)
      → Ensures P (m >>= n) R
  after_lookup m n h k =
      bind-Ensures m n h (λ a. record { run = λ w x b e. (k a x.1).run w x.0 b e })

module _ {W : Type 0} (P : W → Type 0) where
  pub refuse_if-Preserves :
      (b : Bool) (code : Code) (l : List Text) → Preserves P (refuse_if {W = W} b code l)
  unfolding refuse_if
  refuse_if-Preserves true code l = raise-Preserves _
  refuse_if-Preserves false code l = pure-Preserves tt

  pub refuse_some-Preserves :
      (code : Code) (l : List Text) → Preserves P (refuse_some {W = W} code l)
  unfolding refuse_some
  refuse_some-Preserves code [] = pure-Preserves tt
  refuse_some-Preserves code (p ∷ l) = raise-Preserves _

  pub refuse_if-Tells :
      (b : Bool) (code : Code) (l : List Text) → Tells P (refuse_if b code l) (λ a. b ≡ false)
  refuse_if-Tells b code l = kept-Tells (refuse_if-Preserves b code l) (refuse_if-Checks b code l)
