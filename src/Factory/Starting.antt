-- ===== src/Factory/Starting.antt =====
-- What `Start`, `WaitForCacheSync` and `InformerFor` do when they are called again or after one
-- another.
use k8s_eviction_controller.Prelude.{
  ℕ, ◌≡◌, refl, ap, String, eq_iff, Bool, true, false, Option, List, [], ◌∷◌, map, All, arith,
  if◌then◌else◌,
}
use k8s_eviction_controller.Factory.{
  Types, SharedInformerFactory, run_informer, start_each, start, sync_each, wait_for_cache_sync,
  informer_for,
}

module _ (types : Types) where
  open types use {Client, Transform, Informer}

  abbrev Factory : Type 0
  Factory = SharedInformerFactory types

  abbrev AllStarted : Factory → List (String × Informer) → Type 0
  AllStarted f xs = All (λ (e : String × Informer). f.started_informers e.0 ≡ true) xs

  start_each-AllStarted :
      (stop_ch : ℕ) (xs : List (String × Informer)) (f : Factory)
      → AllStarted f xs
      → start_each types stop_ch xs f ≡ f
  unfolding start_each
  start_each-AllStarted stop_ch [] f h = refl
  start_each-AllStarted stop_ch ((k, i) ∷ xs) f (h, hs) =
      rw (h, start_each) (start_each-AllStarted stop_ch xs f hs)

  start_each-keeps :
      (stop_ch : ℕ) (xs : List (String × Informer)) (f : Factory) (k : String)
      → f.started_informers k ≡ true
      → (start_each types stop_ch xs f).started_informers k ≡ true
  unfolding start_each
  start_each-keeps stop_ch [] f k h = h
  start_each-keeps stop_ch ((x, i) ∷ xs) f k h =
      start_each-keeps stop_ch xs _ k (ground (arith, eq_iff x k))

  start_each-fixed :
      (stop_ch : ℕ) (xs : List (String × Informer)) (f : Factory)
      → ((start_each types stop_ch xs f).informers ≡ f.informers)
        × ((start_each types stop_ch xs f).shutting_down ≡ f.shutting_down)
  unfolding start_each
  start_each-fixed stop_ch [] f = (refl, refl)
  start_each-fixed stop_ch ((x, i) ∷ xs) f = ground (
    arith,
    start_each-fixed stop_ch xs
        (if f.started_informers x then f else run_informer types stop_ch x i f),
  )

  AllStarted-start_each :
      (stop_ch : ℕ) (xs : List (String × Informer)) (f : Factory)
      → AllStarted (start_each types stop_ch xs f) xs
  unfolding start_each
  AllStarted-start_each stop_ch [] f = tt
  AllStarted-start_each stop_ch ((x, i) ∷ xs) f = (
    start_each-keeps stop_ch xs _ x (ground (arith, eq_iff x x)),
    AllStarted-start_each stop_ch xs _,
  )

  start_each-again :
      (first second : ℕ) (f : Factory)
      → start_each types second f.informers (start_each types first f.informers f)
        ≡ start_each types first f.informers f
  start_each-again first second f =
      start_each-AllStarted second f.informers _ (AllStarted-start_each first f.informers f)

  -- A second Start, with any stop channel, changes nothing: no informer is run twice, and none is
  -- run again on a new stop channel.
  pub start_again :
      (first second : ℕ) (f : Factory)
      → start types second (start types first f) ≡ start types first f
  unfolding start
  start_again first second f =
      ground (arith, start_each-fixed first f.informers f, start_each-again first second f)

  sync_each-AllStarted :
      (synced : Informer → Bool) (xs : List (String × Informer)) (f : Factory)
      → AllStarted f xs
      → sync_each types synced f.started_informers xs
        ≡ map (λ (e : String × Informer). (e.0, synced e.1)) xs
  unfolding sync_each
  sync_each-AllStarted synced [] f h = refl
  sync_each-AllStarted synced ((k, i) ∷ xs) f (h, hs) =
      rw h (ap (λ r. (k, synced i) ∷ r) (sync_each-AllStarted synced xs f hs))

  -- After a Start of a factory that is not shutting down, WaitForCacheSync reports on every
  -- informer that was asked for, and on no other.
  pub wait_for_cache_sync-start :
      (synced : Informer → Bool) (stop_ch : ℕ) (f : Factory)
      → f.shutting_down ≡ false
      → wait_for_cache_sync types synced (start types stop_ch f)
        ≡ map (λ (e : String × Informer). (e.0, synced e.1)) f.informers
  unfolding start wait_for_cache_sync
  wait_for_cache_sync-start synced stop_ch f up = ground (
    arith,
    start_each-fixed stop_ch f.informers f,
    sync_each-AllStarted synced f.informers (start_each types stop_ch f.informers f)
        (AllStarted-start_each stop_ch f.informers f),
  )

  -- The informer of a type is made at most once: asking again gives the same one and changes
  -- nothing.
  pub informer_for_again :
      (new_func other_func : Client → ℕ → Informer)
      (set_transform : Option Transform → Informer → Informer) (informer_type : String)
      (f : Factory)
      → let (informer, g) = informer_for types new_func set_transform informer_type f in
        informer_for types other_func set_transform informer_type g ≡ (informer, g)
  unfolding informer_for
  informer_for_again new_func other_func set_transform informer_type f =
      ground (arith, eq_iff informer_type informer_type)
