-- ===== src/Layers/Tests.antt =====
-- Two layers that are maximum levels, as `LevelFilter` is a layer.
use tracing.Prelude.{ℕ, ◌≡◌, refl, true, false, List, [], ◌∷◌, some, inl, inr, if◌then◌else◌}
use tracing.Level.{Level, LevelFilter, info, error}
use tracing.Level.Compare.LevelWithFilter
use tracing.Interest.{never, always}
use tracing.Filter.{Host}
use tracing.Layers.{Layer, of_vec, vec_interest, raise}
use tracing.Layers.Vec.{Covers, of_vec-Covers}

abbrev host : Host
host = record { Meta = Level; level = λ l. l; Context = ℕ; Event = ℕ; Notification = ℕ; Effect = ℕ }

unfoldable up_to : LevelFilter → Layer host
unfolding LevelWithFilter.le
up_to f = record {
  register_callsite = λ l. if LevelWithFilter.le l f then always else never;
  enabled = λ l cx. LevelWithFilter.le l f;
  event_enabled = λ e cx. true;
  max_level_hint = some f;
  notify = λ n cx. n ∷ [];
}

abbrev layers : List (Layer host)
layers = up_to (some info) ∷ up_to (some error) ∷ []

-- The callsite is cached as `always`, although the `Vec` does not enable it.
always_disabled :
    ((of_vec layers).register_callsite info ≡ always) × ((of_vec layers).enabled info 0 ≡ false)
unfolding of_vec vec_interest raise up_to LevelWithFilter.le
always_disabled = (refl, refl)

-- An empty `Vec` caches `never`, and enables everything.
empty_vec :
    ((of_vec {h = host} []).register_callsite info ≡ never)
    × ((of_vec {h = host} []).enabled info 0 ≡ true)
unfolding of_vec vec_interest
empty_vec = (refl, refl)

of_vec-Covers_example : Covers (of_vec layers) (up_to (some error)) info 3 0
of_vec-Covers_example = of_vec-Covers layers (up_to (some error)) info 3 0 (inr (inl refl))
