-- ===== src/Cleanup/Run/Order.antt =====
-- `BuildCleanupRunner.run`: services and containers go first.
use docker_jenkins_orchestra.Prelude.{
  String, ◌≡◌, refl, ◌⊎◌, inl, inr, Bool, true, false, not, ◌&&◌, ◌||◌, some, List, [], ◌∷◌, nat_eq,
  string_eq, option_eq, pair_eq, any, All,
}
use docker_jenkins_orchestra.Prelude.Dict.{lookup, values}
use docker_jenkins_orchestra.Models.Resources.{BuildResource, BuildResources}
use docker_jenkins_orchestra.Tracker.{ResourceTracker}
use docker_jenkins_orchestra.Cleanup.Run.{
  Cleaners, Progress, stored_manifest, is_removed, is_runtime, outstanding, refuse_cleanup,
  remove_resource,
}
use docker_jenkins_orchestra.Cleanup.Run.Sound.{stored_manifest-ok}
use docker_jenkins_orchestra.World.{World, ok, >>=-ok, raise-ok}

-- a resource that is no service and no container, or is removed
abbrev pub IsSettled : BuildResource → Type 0
IsSettled r = (is_runtime r ≡ false) ⊎ (is_removed r ≡ true)

refuse_cleanup-ok :
    (refused : Bool) (message : String) (w : World)
    → (refuse_cleanup refused message w).0 ≡ ok tt
    → refused ≡ false
refuse_cleanup-ok true message w h = absurd (raise-ok _ tt w h)
refuse_cleanup-ok false message w h = refl

settled : (r : BuildResource) → (is_runtime r && not (is_removed r)) ≡ false → IsSettled r
settled r h = by_tests (is_runtime r) (is_removed r) h
  where
    by_tests : (a b : Bool) → (a && not b) ≡ false → (a ≡ false) ⊎ (b ≡ true)
    by_tests false b k = inl refl
    by_tests true true k = inr refl
    by_tests true false k = cc k

||-false : (a b : Bool) → (a || b) ≡ false → (a ≡ false) × (b ≡ false)
||-false false b h = (refl, h)
||-false true b h = cc h

-- what the test of an order that does not refuse means
order_allowed :
    (runtime left complete : Bool)
    → runtime ≡ false
    → (not runtime && (left || not complete)) ≡ false
    → (left ≡ false) × (complete ≡ true)
order_allowed true left complete other h = cc other
order_allowed false false true other h = (refl, refl)
order_allowed false false false other h = cc h
order_allowed false true complete other h = cc h

outstanding-IsSettled :
    (rs : List BuildResource)
    → any (λ r. is_runtime r && not (is_removed r)) rs ≡ false
    → All IsSettled rs
outstanding-IsSettled [] h = tt
outstanding-IsSettled (r ∷ rs) h =
    let (first, others) = ||-false (is_runtime r && not (is_removed r)) _ h in
    (settled r first, outstanding-IsSettled rs others)

-- When the removal of a resource that is no service and no container is done, the discovery was
-- complete, and in the manifest that was stored before it every service and container was removed.
pub remove_resource_lem :
    (cleaners : Cleaners) (tracker : ResourceTracker) (p : Progress) (resource : BuildResource)
    (states : List String) (w : World)
    → is_runtime resource ≡ false
    → (remove_resource cleaners tracker p resource w).0 ≡ ok states
    → (p.discovery_complete ≡ true)
      × ((m : BuildResources) × (lookup tracker.build_id w.repository.build_resources ≡ some m)
          × All IsSettled (values m.resources))
unfolding remove_resource
remove_resource_lem cleaners tracker p resource states w other h =
    let (latest, read, h1, _) = >>=-ok (stored_manifest tracker.build_id) _ w h in
    let (u, allowed, _, _) = >>=-ok (refuse_cleanup _ _) _ _ h1 in
    let (none_left, complete) =
      order_allowed (is_runtime resource) (outstanding latest) p.discovery_complete other
        (refuse_cleanup-ok _ _ _ allowed) in
    (
      complete,
      (
        latest,
        (stored_manifest-ok tracker.build_id latest w read).0,
        outstanding-IsSettled (values latest.resources) none_left,
      ),
    )
