-- ===== src/Backup/Cache.antt =====
-- The cache folders that are removed from a browser's profile.
use mathlib.Core.Path.{subst}
use proxy_for_windows_app.Base.{
  ◌≡◌, refl, sym, inl, inr, Bool, true, false, not, Option, none, some, List, [], ◌∷◌, arith, In,
  if_intro,
}
use proxy_for_windows_app.Base.Text.{Text}
use proxy_for_windows_app.Backup.{
  CacheHost, CacheError, Found, missing, unreadable, present, path_inside, removed_at, clear_dirs,
  clear_cache, clear_at, from_slash, chromium_cache_dirs, outside_profile, stat_failed,
  remove_failed,
}

module _ (host : CacheHost) (profile : Text) where
  -- Every folder of the list lies inside the profile, and is that of a name in `dirs`.
  AllInside : List Text → Option CacheError × List Text → Type 0
  AllInside dirs (e, targets) =
      (t : Text)
      → In t targets
      → (path_inside host t profile ≡ true)
        × ((dir : Text) × In dir dirs × (t ≡ host.join profile (from_slash dir)))

  AllInside-none : (dirs : List Text) (e : Option CacheError) → AllInside dirs (e, [])
  unfolding AllInside
  AllInside-none dirs e t absent = absurd absent

  AllInside-more :
      (dir : Text) (dirs : List Text) (o : Option CacheError × List Text)
      → AllInside dirs o
      → AllInside (dir ∷ dirs) o
  unfolding AllInside
  AllInside-more dir dirs (e, targets) all t member =
      let (inside, (d, listed, same)) = all t member in (inside, (d, inr listed, same))

  removed_at-AllInside :
      (dir : Text) (dirs : List Text) (found : Found) (removes : Bool)
      (o : Option CacheError × List Text)
      → path_inside host (host.join profile (from_slash dir)) profile ≡ true
      → AllInside dirs o
      → AllInside
          (dir ∷ dirs)
          (removed_at host (host.join profile (from_slash dir)) found removes o)
  unfolding removed_at AllInside
  removed_at-AllInside dir dirs missing removes (e, targets) inside all =
      AllInside-more dir dirs (e, targets) all
  removed_at-AllInside dir dirs unreadable removes o inside all =
      AllInside-none (dir ∷ dirs) (some stat_failed)
  removed_at-AllInside dir dirs present false (e, targets) inside all =
      AllInside-none (dir ∷ dirs) (some remove_failed)
  removed_at-AllInside dir dirs present true (e, targets) inside all = λ t member. elim member [
    | inl here ↦
        (subst (λ u. path_inside host u profile ≡ true) (sym here) inside, (dir, inl refl, here))
    | inr there ↦ AllInside-more dir dirs (e, targets) all t there
  ]

  clear_dirs-AllInside : (dirs : List Text) → AllInside dirs (clear_dirs host profile dirs)
  unfolding clear_dirs
  clear_dirs-AllInside [] = AllInside-none [] none
  clear_dirs-AllInside (dir ∷ dirs) =
      let target = host.join profile (from_slash dir) in
      if_intro (AllInside (dir ∷ dirs)) (not (path_inside host target profile)) _ _
        (λ _. AllInside-none (dir ∷ dirs) (some outside_profile))
        (λ inside.
          removed_at-AllInside dir dirs (host.stat target) (host.remove_all target)
            (clear_dirs host profile dirs) (ground arith) (clear_dirs-AllInside dirs))

-- Every folder that the clean-up of a profile removes, even one that ends with an error, lies inside the
-- absolute profile folder by the test of `pathInside`, and is one of the known cache folders in it.
pub clear_cache-inside :
    (host : CacheHost) (profile_dir profile t : Text)
    → host.abs profile_dir ≡ some profile
    → In t (clear_cache host profile_dir).1
    → (path_inside host t profile ≡ true)
      × ((dir : Text) × In dir chromium_cache_dirs × (t ≡ host.join profile (from_slash dir)))
unfolding clear_cache clear_at AllInside
clear_cache-inside host profile_dir profile t e member =
    clear_dirs-AllInside host profile chromium_cache_dirs t
      (subst (λ o. In t (clear_at host o).1) e member)
