-- ===== src/Pool/Eviction.antt =====
-- Which sessions evictLocked leaves.
use data_info.Common.{
  ℕ, ◌+◌, ◌≤◌, ◌<◌, ◌==◌, ◌≡◌, inl, inr, refl, sym, ap, ◌∙◌, subst, Bool, true, false, List, [],
  ◌∷◌, length, reverse, if◌then◌else◌, arith, Bool-cases, ==_iff,
}
use data_info.Pool.{Pool, Entry, Config, elem, unlink, evictable, evict_walk, evict}
use data_info.Pool.Table.{length-remove-le, elem-reverse}
use data_info.Pool.Invariant.{elem-unlink, lru-unlink, in_use-unlink}

last_used-unlink : (p : Pool) (k i : ℕ) → ((unlink p k).heap i).last_used ≡ (p.heap i).last_used
unfolding unlink
last_used-unlink p k i = ground arith

cfg-unlink : (p : Pool) (k : ℕ) → (unlink p k).cfg ≡ p.cfg
unfolding unlink
cfg-unlink p k = ground arith

-- What stays as it was, and what only shrinks.
record Shrunk (p q : Pool) : Type 0 where
  cfg : q.cfg ≡ p.cfg
  in_use : (i : ℕ) → (q.heap i).in_use ≡ (p.heap i).in_use
  last_used : (i : ℕ) → (q.heap i).last_used ≡ (p.heap i).last_used
  shorter : length q.lru ≤ length p.lru
  fewer : (i : ℕ) → elem i p.lru ≡ false → elem i q.lru ≡ false

unlink-Shrunk : (p : Pool) (k : ℕ) → Shrunk p (unlink p k)
unlink-Shrunk p k = record {
  cfg = cfg-unlink p k;
  in_use = in_use-unlink p k;
  last_used = last_used-unlink p k;
  shorter = rw lru-unlink (length-remove-le k p.lru);
  fewer = λ i e. ground (arith, elem-unlink p k i);
}

Shrunk-trans : (p q r : Pool) → Shrunk p q → Shrunk q r → Shrunk p r
Shrunk-trans p q r a b = record {
  cfg = b.cfg ∙ a.cfg;
  in_use = λ i. b.in_use i ∙ a.in_use i;
  last_used = λ i. b.last_used i ∙ a.last_used i;
  shorter = omega (arith, a.shorter, b.shorter);
  fewer = λ i e. b.fewer i (a.fewer i e);
}

Shrunk-refl : (p : Pool) → Shrunk p p
Shrunk-refl p = record {
  cfg = refl;
  in_use = λ i. refl;
  last_used = λ i. refl;
  shorter = omega arith;
  fewer = λ i e. e;
}

step : ℕ → Pool → ℕ → Pool
step now p k = if evictable p now k then unlink p k else p

step-Shrunk : (now : ℕ) (p : Pool) (k : ℕ) → Shrunk p (step now p k)
unfolding step
step-Shrunk now p k = chosen (evictable p now k)
  where
    chosen : (b : Bool) → Shrunk p (if b then unlink p k else p)
    chosen true = unlink-Shrunk p k
    chosen false = Shrunk-refl p

walk-Shrunk : (now : ℕ) (l : List ℕ) (p : Pool) → Shrunk p (evict_walk now l p)
unfolding evict_walk step
walk-Shrunk now [] p = Shrunk-refl p
walk-Shrunk now (k ∷ l) p =
    Shrunk-trans p (step now p k) _ (step-Shrunk now p k) (walk-Shrunk now l (step now p k))

-- In the pool that a walk leaves, an entry that the walk passed and that nobody uses has been idle no
-- longer than allowed, and the pool holds no more sessions than allowed.
Settled : ℕ → Pool → ℕ → Type 0
Settled now q i =
    (now ≤ (q.heap i).last_used + q.cfg.idle_timeout) × (length q.lru ≤ q.cfg.max_sessions)

stays-Settled :
    (now : ℕ) (p q : Pool) (k : ℕ)
    → Shrunk p q
    → evictable p now k ≡ false
    → (q.heap k).in_use ≡ 0
    → Settled now q k
unfolding evictable Settled
stays-Settled now p q k s e u = ground (
  arith,
  s.in_use k,
  s.last_used k,
  s.shorter,
  ap (λ (c : Config). c.idle_timeout) s.cfg,
  ap (λ (c : Config). c.max_sessions) s.cfg,
)

gone : (p : Pool) (k : ℕ) → elem k (unlink p k).lru ≡ false
gone p k = ground (arith, elem-unlink p k k)

at_head :
    (now : ℕ) (l : List ℕ) (p : Pool) (k : ℕ) (b : Bool) {i : ℕ}
    → evictable p now k ≡ b
    → i ≡ k
    → let q = evict_walk now l (if b then unlink p k else p) in
      elem i q.lru ≡ true → (q.heap i).in_use ≡ 0 → Settled now q i
at_head now l p k true {i} e s h u = cc (
  h,
  ap (λ j. elem j (evict_walk now l (unlink p k)).lru) s,
  (walk-Shrunk now l (unlink p k)).fewer k (gone p k),
)
at_head now l p k false {i} e s h u = subst (Settled now (evict_walk now l p)) (sym s) (
    stays-Settled now p (evict_walk now l p) k (walk-Shrunk now l p) e
      (ap (λ j. ((evict_walk now l p).heap j).in_use) (sym s) ∙ u))

walk-Settled :
    (now : ℕ) (l : List ℕ) (p : Pool) (i : ℕ)
    → elem i l ≡ true
    → elem i (evict_walk now l p).lru ≡ true
    → ((evict_walk now l p).heap i).in_use ≡ 0
    → Settled now (evict_walk now l p) i
unfolding evict_walk step
walk-Settled now [] p i m h u = unfold elem in cc m
walk-Settled now (k ∷ l) p i m h u = elim (Bool-cases (i == k)) [
  | inl same ↦ at_head now l p k (evictable p now k) refl ((==_iff i k).0 same) h u
  | inr other ↦ walk-Settled now l (step now p k) i (unfold elem in ground (arith, m)) h u
]

Same : Pool → Pool → ℕ → Type 0
Same p q i = (elem i q.lru ≡ elem i p.lru) × (q.heap i ≡ p.heap i)

unlink-other : (p : Pool) (k i : ℕ) → (k == i) ≡ false → Same p (unlink p k) i
unfolding Same
unlink-other p k i h = (ground (arith, elem-unlink p k i), unfold unlink in ground arith)

step-in_use : (now : ℕ) (p : Pool) (k i : ℕ) → 0 < (p.heap i).in_use → Same p (step now p k) i
unfolding step
step-in_use now p k i h = chosen (evictable p now k) refl
  where
    used : evictable p now k ≡ true → (k == i) ≡ false
    used e = unfold evictable in ground (arith, e, λ (q : k ≡ i). ap (λ j. (p.heap j).in_use) q)

    chosen : (b : Bool) → evictable p now k ≡ b → Same p (if b then unlink p k else p) i
    chosen true e = unlink-other p k i (used e)
    chosen false e = unfold Same in (refl, refl)

walk-in_use :
    (now : ℕ) (l : List ℕ) (p : Pool) (i : ℕ)
    → 0 < (p.heap i).in_use
    → Same p (evict_walk now l p) i
unfolding evict_walk step Same
walk-in_use now [] p i h = (refl, refl)
walk-in_use now (k ∷ l) p i h =
    let first = step-in_use now p k i h in
    let later =
      walk-in_use now l (step now p k) i (omega (arith, h, ap (λ (e : Entry). e.in_use) first.1)) in
    (later.0 ∙ first.0, later.1 ∙ first.1)

-- A session that evictLocked leaves in the list and that nobody uses has been idle no longer than the
-- timeout, and when there is such a session the list is no longer than MaxSessions: a longer list holds
-- only sessions in use.
pub evict-Settled :
    (now : ℕ) (p : Pool) (i : ℕ)
    → elem i (evict now p).lru ≡ true
    → ((evict now p).heap i).in_use ≡ 0
    → (now ≤ ((evict now p).heap i).last_used + p.cfg.idle_timeout)
      × (length (evict now p).lru ≤ p.cfg.max_sessions)
unfolding evict Settled Same
evict-Settled now p i = settled
  where
    all : Shrunk p (evict_walk now (reverse p.lru) p)
    all = walk-Shrunk now (reverse p.lru) p

    member : elem i (evict_walk now (reverse p.lru) p).lru ≡ true → elem i (reverse p.lru) ≡ true
    member h = ground (arith, all.fewer i, elem-reverse i p.lru, h)

    settled :
        elem i (evict_walk now (reverse p.lru) p).lru ≡ true
        → ((evict_walk now (reverse p.lru) p).heap i).in_use ≡ 0
        → (now ≤ ((evict_walk now (reverse p.lru) p).heap i).last_used + p.cfg.idle_timeout)
          × (length (evict_walk now (reverse p.lru) p).lru ≤ p.cfg.max_sessions)
    settled h u = ground (
      arith,
      walk-Settled now (reverse p.lru) p i (member h) h u,
      ap (λ (c : Config). c.idle_timeout) all.cfg,
      ap (λ (c : Config). c.max_sessions) all.cfg,
    )

-- evictLocked changes no session that somebody uses, and takes none of them off the list.
pub evict-spares :
    (now : ℕ) (p : Pool) (i : ℕ)
    → 0 < (p.heap i).in_use
    → (elem i (evict now p).lru ≡ elem i p.lru) × ((evict now p).heap i ≡ p.heap i)
unfolding evict Same
evict-spares now p i = walk-in_use now (reverse p.lru) p i
