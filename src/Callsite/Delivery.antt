-- ===== src/Callsite/Delivery.antt =====
-- After a dispatcher is registered the macros' test lets through exactly what each live dispatcher
-- enables.
use tracing.Prelude.{
  ◌&&◌, not, ℕ, ◌≤◌, ◌≡◌, refl, sym, subst, ap, ◌⊎◌, inl, inr, false, List, [], ◌∷◌, ◌++◌, map,
  Option, none, some, In, In-all, In-append_left, In-append_right, In-map_inv, arith,
}
use tracing.Level.{Level, trace, LevelFilter, off}
use tracing.Level.Compare.Verbosity.{level_verbosity, verbosity, as_usize_sum, filter_as_usize_sum}
use tracing.Level.Max.{set_max, current-set_max}
use tracing.Interest.{is_never, is_always}
use tracing.Callsite.{
  Dispatch, Registered, Global, rebuild_callsite_interest, fold_max, unwrap_or, live, retain_live,
  recache, add_registrar, register_dispatch, event_test,
}
use tracing.Callsite.Cache.{rebuild_callsite_interest-agreed}

-- What the documentation of `Subscriber` asks of a subscriber, at one callsite of level `lvl`.
pub record IsLawful {Meta : Type 0} (d : Dispatch Meta) (meta : Meta) (lvl : Level) : Type 0 where
  pub never_disables : (is_never (d.register_callsite meta) && d.enabled meta) ≡ false
  pub always_enables : (is_always (d.register_callsite meta) && not (d.enabled meta)) ≡ false
  pub hint_bounds :
      (d.enabled meta ≡ false)
      ⊎ (level_verbosity lvl ≤ verbosity (unwrap_or d.max_level_hint (some trace)))

module _ {Meta : Type 0} where
  abbrev hint : Dispatch Meta → LevelFilter
  hint d = unwrap_or d.max_level_hint (some trace)

  fold_max-ge :
      (m : LevelFilter) (ds : List (Dispatch Meta)) → verbosity m ≤ verbosity (fold_max m ds)
  unfolding fold_max
  fold_max-ge m [] = omega arith
  fold_max-ge m (d ∷ ds) = ground (
    arith,
    filter_as_usize_sum m,
    filter_as_usize_sum (hint d),
    fold_max-ge m ds,
    fold_max-ge (hint d) ds,
  )

  fold_max-hint :
      (m : LevelFilter) (d : Dispatch Meta) (ds : List (Dispatch Meta))
      → In d ds
      → verbosity (hint d) ≤ verbosity (fold_max m ds)
  unfolding fold_max
  fold_max-hint m d [] h = absurd (h refl)
  fold_max-hint m d (e ∷ ds) (inl h) = rw h (
      ground (
        arith,
        filter_as_usize_sum m,
        filter_as_usize_sum (hint e),
        fold_max-ge m ds,
        fold_max-ge (hint e) ds,
      ))
  fold_max-hint m d (e ∷ ds) (inr h) =
      ground (arith, fold_max-hint m d ds h, fold_max-hint (hint e) d ds h)

  -- The test at a callsite whose cache was rebuilt over `ds`, for one of them as the default.
  pub event_test_rebuilt :
      (static_max : LevelFilter) (lvl : Level) (meta : Meta) (d : Dispatch Meta)
      (ds : List (Dispatch Meta)) (m : ℕ)
      → In d ds
      → IsLawful d meta lvl
      → level_verbosity lvl ≤ verbosity static_max
      → event_test static_max lvl
          (set_max (fold_max off ds) m)
          (record { meta = meta; byte = rebuild_callsite_interest meta ds })
          d
        ≡ d.enabled meta
  unfolding event_test
  event_test_rebuilt static_max lvl meta d ds m h l below =
      rw ((rebuild_callsite_interest-agreed meta ds).1, current-set_max (fold_max off ds) m)
        (ground (
          arith,
          as_usize_sum lvl,
          filter_as_usize_sum static_max,
          filter_as_usize_sum (fold_max off ds),
          fold_max-hint off d ds h,
          In-all (λ b. is_never (b.register_callsite meta)) d ds h,
          In-all (λ b. is_always (b.register_callsite meta)) d ds h,
          l.never_disables,
          l.always_enables,
          l.hint_bounds,
        ))

  In-live :
      (d : Dispatch Meta) (rs : List (Option (Dispatch Meta))) → In (some d) rs → In d (live rs)
  unfolding live
  In-live d [] h = absurd (h refl)
  In-live d (none ∷ rs) (inl h) = cc
  In-live d (none ∷ rs) (inr h) = In-live d rs h
  In-live d (some b ∷ rs) (inl h) = inl (cc)
  In-live d (some b ∷ rs) (inr h) = inr (In-live d rs h)

  In-retain_live :
      (d : Dispatch Meta) (rs : List (Option (Dispatch Meta)))
      → In (some d) rs
      → In (some d) (retain_live rs)
  unfolding retain_live
  In-retain_live d [] h = absurd (h refl)
  In-retain_live d (none ∷ rs) (inl h) = cc
  In-retain_live d (none ∷ rs) (inr h) = In-retain_live d rs h
  In-retain_live d (some b ∷ rs) (inl h) = inl h
  In-retain_live d (some b ∷ rs) (inr h) = inr (In-retain_live d rs h)

  pub byte_rebuilt :
      (ds : List (Dispatch Meta)) (c : Registered Meta) (cs : List (Registered Meta))
      → In c (map (recache ds) cs)
      → rebuild_callsite_interest c.meta ds ≡ c.byte
  byte_rebuilt ds c cs h =
      let (b, _, e) = In-map_inv (recache ds) c cs h in
      subst (λ r. rebuild_callsite_interest r.meta ds ≡ r.byte) (sym e) refl

  In-registered :
      (new d : Dispatch Meta) (rs : List (Option (Dispatch Meta)))
      → (d ≡ new) ⊎ In (some d) rs
      → In d (live (retain_live rs ++ (some new ∷ [])))
  In-registered new d rs (inl e) =
      In-live d _ (In-append_right (some d) (retain_live rs) _ (inl (ap some e)))
  In-registered new d rs (inr h) =
      In-live d _ (In-append_left (some d) (retain_live rs) _ (In-retain_live d rs h))

  -- Once `new` is registered, the test of `event!` at every registered callsite lets an event
  -- through exactly if the thread's dispatcher `d` enables it, for `d` the new dispatcher or any
  -- older one that still lives, and whatever the others say. This needs that `d` keeps the contract
  -- of `Subscriber` at the callsite, and that the static maximum does not exclude its level.
  pub event_test-register_dispatch :
      (static_max : LevelFilter) (lvl : Level) (new d : Dispatch Meta) (s : Global Meta)
      (c : Registered Meta)
      → (d ≡ new) ⊎ In (some d) s.registrars
      → In c (register_dispatch new s).linked ⊎ In c (register_dispatch new s).locked
      → IsLawful d c.meta lvl
      → level_verbosity lvl ≤ verbosity static_max
      → event_test static_max lvl (register_dispatch new s).max_level c d ≡ d.enabled c.meta
  unfolding register_dispatch
  event_test-register_dispatch static_max lvl new d s c hd hc l below =
      subst
        (λ b.
          event_test static_max lvl (register_dispatch new s).max_level
            (record { meta = c.meta; byte = b }) d
          ≡ d.enabled c.meta)
        (byte hc)
        (event_test_rebuilt static_max lvl c.meta d ds (add_registrar new s).max_level
          (In-registered new d s.registrars hd) l below)
    where
      ds : List (Dispatch Meta)
      ds = live (retain_live s.registrars ++ (some new ∷ []))

      byte :
          In c (map (recache ds) s.linked) ⊎ In c (map (recache ds) s.locked)
          → rebuild_callsite_interest c.meta ds ≡ c.byte
      byte (inl h) = byte_rebuilt ds c s.linked h
      byte (inr h) = byte_rebuilt ds c s.locked h
