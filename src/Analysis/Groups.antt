-- ===== src/Analysis/Groups.antt =====
-- packages/analysis/src/reducers/ReducerFactories.ts: groupByReducer. Its state is the Map of the
-- groups; `keyOf`, `seed` and `fold` are the caller's.
use mathlib.Core.Option
use netkitty.Base.{◌≡◌, refl, ap, ◌∙◌, Bool-cases, inl, inr}
use netkitty.Base.{List, [], ◌∷◌, if◌then◌else◌}
use netkitty.Base.Dict.{Eq, get, alter, get-alter}
use netkitty.Analysis.Frame.{Frame}

module _ {K V : Type 0} ⦃e : Eq K⦄ (key_of : Frame → K) (seed : V) (fold : V → Frame → V) where
  unfoldable pub group_update : List (K × V) → Frame → List (K × V)
  group_update groups x = alter (key_of x) seed (λ v. fold v x) groups

  pub group_update_all : List (K × V) → List Frame → List (K × V)
  group_update_all groups [] = groups
  group_update_all groups (x ∷ xs) = group_update_all (group_update groups x) xs

  pub group_result : List (K × V) → List (K × V)
  group_result groups = groups

  pub group_reset : List (K × V) → List (K × V)
  group_reset groups = []

  -- The frames of one key, folded from a value on.
  unfoldable pub fold_group : K → V → List Frame → V
  fold_group k v [] = v
  fold_group k v (x ∷ xs) = fold_group k (if e.beq (key_of x) k then fold v x else v) xs

  group_update_step :
      (k : K) (groups : List (K × V)) (x : Frame)
      → Option.get_or (get k (group_update groups x)) seed
        ≡ fold_group k (Option.get_or (get k groups) seed) (x ∷ [])
  unfolding group_update fold_group
  group_update_step k groups x =
      rw (get-alter (key_of x) k seed (λ v. fold v x) groups)
        (elim (Bool-cases (e.beq (key_of x) k)) [
          | inl same ↦
              let key : key_of x ≡ k = (e.beq_iff (key_of x) k).0 same in
              rw same (ap (λ j. fold (Option.get_or (get j groups) seed) x) key)
          | inr other ↦ rw other refl
        ])

  -- After any frames, the group of a key is the fold of just the frames that have this key, in their
  -- order, from what the group was, or from the seed.
  pub group_update_all_lem :
      (k : K) (groups : List (K × V)) (xs : List Frame)
      → Option.get_or (get k (group_update_all groups xs)) seed
        ≡ fold_group k (Option.get_or (get k groups) seed) xs
  unfolding group_update_all group_update fold_group
  group_update_all_lem k groups [] = refl
  group_update_all_lem k groups (x ∷ xs) =
      group_update_all_lem k (group_update groups x) xs
      ∙ ap (λ v. fold_group k v xs) (group_update_step k groups x)
