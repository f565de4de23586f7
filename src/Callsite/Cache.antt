-- ===== src/Callsite/Cache.antt =====
-- The interest that a rebuild caches, against a description that asks every dispatcher.
use tracing.Prelude.{◌≡◌, refl, Bool, ◌&&◌, List, [], ◌∷◌, some, all, if◌then◌else◌, arith}
use tracing.Interest.{Interest, never, sometimes, always, is_never, is_always, and}
use tracing.Callsite.{
  Dispatch, set_interest, load_interest, interest, fold_interest, rebuild_callsite_interest,
}

module _ {Meta : Type 0} (meta : Meta) where
  abbrev pub all_never : List (Dispatch Meta) → Bool
  all_never = all (λ d. is_never (d.register_callsite meta))

  abbrev pub all_always : List (Dispatch Meta) → Bool
  all_always = all (λ d. is_always (d.register_callsite meta))

  -- `never` if every dispatcher says so (or there is none), `always` if every one says that.
  abbrev pub agreed_interest : List (Dispatch Meta) → Interest
  agreed_interest ds = if all_never ds then never else if all_always ds then always else sometimes

  -- With an interest carried in.
  agreed_from : Interest → List (Dispatch Meta) → Interest
  agreed_from i ds =
      if is_never i && all_never ds
      then never
      else if is_always i && all_always ds
      then always
      else sometimes

  fold_interest-agreed :
      (i : Interest) (ds : List (Dispatch Meta))
      → fold_interest meta (some i) ds ≡ some (agreed_from i ds)
  unfolding fold_interest agreed_from and
  fold_interest-agreed never [] = refl
  fold_interest-agreed sometimes [] = refl
  fold_interest-agreed always [] = refl
  fold_interest-agreed i (d ∷ ds) =
      ground (arith, fold_interest-agreed (and i (d.register_callsite meta)) ds)

  -- A rebuild caches the interest that all the dispatchers agree on, and `sometimes` if they do
  -- not; both readings of the stored byte give it back, so it never leads to a new registration.
  pub rebuild_callsite_interest-agreed :
      (ds : List (Dispatch Meta))
      → (load_interest (rebuild_callsite_interest meta ds) ≡ agreed_interest ds)
        × (interest (rebuild_callsite_interest meta ds) ≡ some (agreed_interest ds))
  unfolding rebuild_callsite_interest load_interest interest set_interest agreed_from fold_interest
  rebuild_callsite_interest-agreed [] = (refl, refl)
  rebuild_callsite_interest-agreed (d ∷ ds) =
      ground (arith, fold_interest-agreed (d.register_callsite meta) ds)
