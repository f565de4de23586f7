-- ===== src/Callsite/Registration/Steps.antt =====
-- Every atomic step keeps the invariant, so every reachable state has a well-formed callsite list.
use tracing.Prelude.{
  ℕ, ◌≡◌, ◌⊎◌, refl, sym, subst, ◌∙◌, ◌≢◌, List, [], ◌∷◌, Option, none, some, In, inl, inr, arith,
}
use tracing.Callsite.Registration.{
  Registration, unregistered, registering, registered, idle, load_head, store_next, exchange_head,
  finish, panicked, System, update, asserted, Step, claim, decline, load, store, exchange, retry,
  complete, Reach, start, later,
}
use tracing.Callsite.Registration.Invariant.{
  Seg, Seg-update, Seg-head, Distinct, claimed, to_push, Inv, Inv-start,
}

claim-Inv :
    (s : System) (xs : List ℕ) (i c : ℕ)
    → s.pc i ≡ idle
    → s.registration c ≡ unregistered
    → Inv s xs
    → Inv
        (record s {
          registration = update s.registration c registering;
          pc = update s.pc i (load_head c);
        })
        xs
claim-Inv s xs i c e u v = record {
  chain = v.chain;
  distinct = v.distinct;
  calm = λ j h. ground (arith, v.calm j);
  in_claim = λ j b h. ground (arith, v.in_claim j b);
  alone = λ j k b h g. ground (arith, v.alone j k b, v.in_claim j b, v.in_claim k b);
  outside = λ j b h m. ground (arith, v.outside j b, v.fresh c);
  seen = λ j b x h. ground (arith, v.seen j b x);
  stored = λ j b x h. ground (arith, v.stored j b x);
  pushed = λ j b h. ground (arith, v.pushed j b);
  inside = λ b h. ground (arith, v.inside b);
  fresh = λ b h m. ground (arith, v.fresh b);
}

load-Inv :
    (s : System) (xs : List ℕ) (i c : ℕ)
    → to_push (s.pc i) ≡ some c
    → claimed (s.pc i) ≡ some c
    → Inv s xs
    → Inv (record s { pc = update s.pc i (store_next c s.list_head) }) xs
load-Inv s xs i c e k v = record {
  chain = v.chain;
  distinct = v.distinct;
  calm = λ j h. ground (arith, v.calm j);
  in_claim = λ j b h. ground (arith, v.in_claim j b, v.in_claim i b);
  alone = λ j l b h g. ground (arith, v.alone j l b, v.alone i l b, v.alone j i b);
  outside = λ j b h m. ground (arith, v.outside j b, v.outside i c);
  seen = λ j b x h. ground (arith, v.seen j b x, Seg-head s.next s.list_head xs x v.chain);
  stored = λ j b x h. ground (arith, v.stored j b x);
  pushed = λ j b h. ground (arith, v.pushed j b);
  inside = v.inside;
  fresh = v.fresh;
}

asserted-exchange : (c : ℕ) (h : Option ℕ) → h ≢ some c → asserted c h ≡ exchange_head c h
unfolding asserted
asserted-exchange c none e = refl
asserted-exchange c (some x) e = ground arith

store-Inv :
    (s : System) (xs : List ℕ) (i c : ℕ) (h : Option ℕ)
    → s.pc i ≡ store_next c h
    → Inv s xs
    → Inv (record s { next = update s.next c h; pc = update s.pc i (exchange_head c h) }) xs
store-Inv s xs i c h e v = record {
  chain = Seg-update s.next s.list_head xs c h (v.outside i c (ground arith)) v.chain;
  distinct = v.distinct;
  calm = λ j k. ground (arith, v.calm j);
  in_claim = λ j b k. ground (arith, v.in_claim j b, v.in_claim i b);
  alone = λ j l b k g. ground (arith, v.alone j l b, v.alone i l b, v.alone j i b);
  outside = λ j b k m. ground (arith, v.outside j b, v.outside i c);
  seen = λ j b x k. ground (arith, v.seen j b x);
  stored = λ j b x k. ground (arith, v.stored j b x, v.alone i j c);
  pushed = λ j b k. ground (arith, v.pushed j b);
  inside = v.inside;
  fresh = v.fresh;
}

exchange-Inv :
    (s : System) (xs : List ℕ) (i c : ℕ) (h : Option ℕ)
    → s.pc i ≡ exchange_head c h
    → s.list_head ≡ h
    → Inv s xs
    → Inv (record s { list_head = some c; pc = update s.pc i (finish c) }) (c ∷ xs)
exchange-Inv s xs i c h e l v = record {
  chain = (refl, subst (λ p. Seg s.next p xs) (l ∙ sym (v.stored i c h e)) v.chain);
  distinct = (v.outside i c (ground arith), v.distinct);
  calm = λ j k. ground (arith, v.calm j);
  in_claim = λ j b k. ground (arith, v.in_claim j b, v.in_claim i b);
  alone = λ j g b k m. ground (arith, v.alone j g b, v.alone i g b, v.alone j i b);
  outside = λ j b k m. ground (arith, v.outside j b, v.alone j i b);
  seen = λ j b x k. ground (arith, v.seen j b x);
  stored = λ j b x k. ground (arith, v.stored j b x);
  pushed = λ j b k. ground (arith, v.pushed j b);
  inside = λ b k. inr (v.inside b k);
  fresh = λ b k m. ground (arith, v.fresh b, v.in_claim i b);
}

complete-Inv :
    (s : System) (xs : List ℕ) (i c : ℕ)
    → s.pc i ≡ finish c
    → Inv s xs
    → Inv
        (record s { registration = update s.registration c registered; pc = update s.pc i idle })
        xs
complete-Inv s xs i c e v = record {
  chain = v.chain;
  distinct = v.distinct;
  calm = λ j k. ground (arith, v.calm j);
  in_claim = λ j b k. ground (arith, v.in_claim j b, v.alone j i b);
  alone = λ j g b k m. ground (arith, v.alone j g b);
  outside = λ j b k m. ground (arith, v.outside j b);
  seen = λ j b x k. ground (arith, v.seen j b x);
  stored = λ j b x k. ground (arith, v.stored j b x);
  pushed = λ j b k. ground (arith, v.pushed j b);
  inside = λ b k. ground (arith, v.inside b, v.pushed i c);
  fresh = λ b k m. ground (arith, v.fresh b);
}

-- The `assert_ne!` of `push_default` holds.
head-ne :
    (s : System) (xs : List ℕ) (i c : ℕ) (h : Option ℕ)
    → s.pc i ≡ store_next c h
    → Inv s xs
    → h ≢ some c
head-ne s xs i c h e v w = v.outside i c (ground arith) (v.seen i c c (ground arith))

Step-Inv : {s t : System} → Step s t → (xs : List ℕ) → Inv s xs → (ys : List ℕ) × Inv t ys
Step-Inv (claim s i c e u) xs v = (xs, claim-Inv s xs i c e u v)
Step-Inv (decline s i c e u) xs v = (xs, v)
Step-Inv (load s i c e) xs v = (xs, load-Inv s xs i c (ground arith) (ground arith) v)
Step-Inv (store s i c h e) xs v =
    (xs, rw (asserted-exchange c h (head-ne s xs i c h e v)) (store-Inv s xs i c h e v))
Step-Inv (exchange s i c h e l) xs v = (c ∷ xs, exchange-Inv s xs i c h e l v)
Step-Inv (retry s i c h e l) xs v = (xs, load-Inv s xs i c (ground arith) (ground arith) v)
Step-Inv (complete s i c e) xs v = (xs, complete-Inv s xs i c e v)

Reach-Inv : {s : System} → Reach s → (xs : List ℕ) × Inv s xs
Reach-Inv start = ([], Inv-start)
Reach-Inv (later r st) = let (xs, v) = Reach-Inv r in Step-Inv st xs v

In-or_not :
    (s : System) (xs : List ℕ) (c : ℕ) → Inv s xs → (s.registration c ≢ registered) ⊎ In c xs
In-or_not s xs c v = go (s.registration c) refl
  where
    go : (r : Registration) → s.registration c ≡ r → (s.registration c ≢ registered) ⊎ In c xs
    go unregistered e = inl (λ h. cc)
    go registering e = inl (λ h. cc)
    go registered e = inr (v.inside c e)

-- However threads interleave their calls of `register`, no thread `i` fails the assertion of
-- `push_default`; following the `next` pointers from the head meets finitely many callsites, no one
-- twice, before the null pointer; and a callsite `c` that is marked `REGISTERED` is among them.
pub Reach-well_formed :
    {s : System}
    → Reach s
    → (i c : ℕ)
    → (s.pc i ≢ panicked)
      × ((xs : List ℕ) × Seg s.next s.list_head xs
          × Distinct xs
          × ((s.registration c ≢ registered) ⊎ In c xs))
Reach-well_formed {s} r i c =
    let (xs, v) = Reach-Inv r in (v.calm i, (xs, v.chain, v.distinct, In-or_not s xs c v))

-- Two threads never have the same callsite in registration, so it is pushed and its interest is
-- built once.
pub Reach-alone :
    {s : System}
    → Reach s
    → (i j c : ℕ) → claimed (s.pc i) ≡ some c
    → claimed (s.pc j) ≡ some c
    → i ≡ j
Reach-alone r i j c h k = let (xs, v) = Reach-Inv r in v.alone i j c h k
