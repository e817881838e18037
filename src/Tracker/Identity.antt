-- ===== src/Tracker/Identity.antt =====
-- What `record` leaves in the manifest.
use docker_jenkins_orchestra.Prelude.{
  ℕ, String, ◌≡◌, refl, sym, ap, ◌∙◌, inl, inr, some, eq_iff, if◌then◌else◌, ◌==◌, nat_eq,
  string_eq, Bool-cases, Option-cases, ==-refl, option_eq, pair_eq,
}
use docker_jenkins_orchestra.Prelude.Dict.{lookup-insert, lookup}
use docker_jenkins_orchestra.Models.Resources.{BuildResource, BuildResources}
use docker_jenkins_orchestra.Repository.State.{Repository}
use docker_jenkins_orchestra.Repository.Resources.{put_build_resource, store_manifest}
use docker_jenkins_orchestra.Repository.Resources.Put.{
  same_ok, err_ne_ok, with_resource, PutOutcome, put-outcome,
}
use docker_jenkins_orchestra.Tracker.Report.{
  Continues, resource_after-repository, resource_after-Continues,
}
use docker_jenkins_orchestra.Tracker.{ResourceTracker, ResourceReport, kind_value, record_resource}
use docker_jenkins_orchestra.World.{Action, World, Error, Result, ok, err, pure, continue, ◌>>=◌}

-- Every resource of the manifest stands under its own key.
abbrev pub Keyed : BuildResources → Type 0
Keyed m = (k : String) (b : BuildResource) → lookup k m.resources ≡ some b → b.key ≡ k

-- What `record` leaves: nothing new, or a resource that continues the known one.
data Recorded (id key : String) (report : ResourceReport) (m : BuildResources) (r : Repository)
    (x : Result BuildResource) (r' : Repository) : Type 0 where
  refused : (e : Error) → x ≡ err e → r' ≡ r → Recorded id key report m r x r'
  stored :
      (b : BuildResource) (stamp : ℕ)
      → x ≡ ok b
      → Continues key report (lookup key m.resources) b
      → r' ≡ store_manifest id (with_resource b stamp m) r
      → Recorded id key report m r x r'

module _ (tracker : ResourceTracker) (key : String) (report : ResourceReport)
    (m : BuildResources) where
  abbrev put_step : BuildResource → Action BuildResource
  put_step b = put_build_resource tracker.build_id b tracker.owner >>= λ _. pure b

  abbrev Ends : Result BuildResource × World → Repository → Type 0
  Ends p r = Recorded tracker.build_id key report m r p.0 p.1.repository

  after_put :
      (b : BuildResource) (x : Result BuildResources) (v : World) (before r : Repository)
      → before ≡ r
      → Continues key report (lookup key m.resources) b
      → PutOutcome tracker.build_id b m before x v.repository
      → Ends (continue x (λ u. pure b) v) r
  unfolding ◌>>=◌
  after_put b (err e) v before r start goes (PutOutcome.refused _ _ same) =
      Recorded.refused e refl (same ∙ start)
  after_put b (ok u) v before r start goes (PutOutcome.refused _ k same) = cc k
  after_put b (err e) v before r start goes (PutOutcome.stored _ _ k now) = cc k
  after_put b (ok u) v before r start goes (PutOutcome.stored _ stamp _ now) =
      Recorded.stored b stamp refl goes
        (now ∙ ap (store_manifest tracker.build_id (with_resource b stamp m)) start)

  after_made :
      (x : Result BuildResource) (v : World) (r : Repository)
      → v.repository ≡ r
      → lookup tracker.build_id r.build_resources ≡ some m
      → ((b : BuildResource) → x ≡ ok b → Continues key report (lookup key m.resources) b)
      → Ends (continue x put_step v) r
  unfolding ◌>>=◌
  after_made (err e) v r same found goes = Recorded.refused e refl same
  after_made (ok b) v r same found goes =
      let there : lookup tracker.build_id v.repository.build_resources ≡ some m =
        ap (λ (s : Repository). lookup tracker.build_id s.build_resources) same ∙ found in
      let put = put_build_resource tracker.build_id b tracker.owner v in
      after_put b put.0 put.1 v.repository r same (goes b refl)
        (put-outcome tracker.build_id b m tracker.owner v there)

module _ (resource_key : String → String → String → String) (tracker : ResourceTracker)
    (report : ResourceReport) (w : World) (m : BuildResources) where
  abbrev pub reported_key : String
  reported_key = resource_key (kind_value report.kind) report.target report.name

  record_resource-outcome :
      lookup tracker.build_id w.repository.build_resources ≡ some m
      → let p = record_resource resource_key tracker report w in
        Recorded tracker.build_id reported_key report m w.repository p.0 p.1.repository
  unfolding record_resource ◌>>=◌
  record_resource-outcome found = rw found (
      after_made tracker reported_key report m _ _ w.repository
        (resource_after-repository reported_key report (lookup reported_key m.resources) w) found
        (resource_after-Continues reported_key report (lookup reported_key m.resources) w))

  key_of :
      {b : BuildResource}
      → Keyed m
      → Continues reported_key report (lookup reported_key m.resources) b
      → b.key ≡ reported_key
  key_of keyed goes = elim (Option-cases (lookup reported_key m.resources)) [
    | inl absent ↦ goes.new_key absent
    | inr (old, known) ↦ goes.old_key old known ∙ keyed reported_key old known
  ]

  Keyed-with_resource : (b : BuildResource) (stamp : ℕ) → Keyed m → Keyed (with_resource b stamp m)
  Keyed-with_resource b stamp keyed k c h = elim (Bool-cases (b.key == k)) [
    | inl here ↦
        let e : b.key ≡ k = (eq_iff b.key k).0 here in
        let held : some b ≡ some c = rw (lookup-insert, here) at h in
        let one : b ≡ c = cc held in sym (ap (λ (x : BuildResource). x.key) one) ∙ e
    | inr other ↦ keyed k c (rw (lookup-insert, other) at h)
  ]

  -- Of a build with a manifest whose resources stand under their own keys: a call of record that
  -- raises changes nothing in the repository; one that returns a resource has stored exactly that
  -- resource under the key of the report, in the reported state, with the other resources as they
  -- were, and an external identity that was known before stays what it was. The resources then
  -- still stand under their own keys.
  pub record_resource-keeps_identity :
      lookup tracker.build_id w.repository.build_resources ≡ some m
      → Keyed m
      → let (x, after) = record_resource resource_key tracker report w in
        ((e : Error) → x ≡ err e → after.repository ≡ w.repository)
        × ((b : BuildResource)
            → x ≡ ok b
            → (m' : BuildResources) × (lookup tracker.build_id after.repository.build_resources
                ≡ some m')
              × ((k : String)
                  → lookup k m'.resources
                    ≡ (if reported_key == k then some b else lookup k m.resources))
              × (b.state ≡ report.state)
              × ((old : BuildResource) (id : String)
                  → lookup reported_key m.resources ≡ some old
                  → old.native_id ≡ some id
                  → b.native_id ≡ some id)
              × Keyed m')
  record_resource-keeps_identity found keyed = elim (record_resource-outcome found) [
    | Recorded.refused _ raised same ↦ (λ e k. same, λ b k. absurd (err_ne_ok (sym raised ∙ k)))
    | Recorded.stored b stamp returned goes now ↦ (
      λ e k. absurd (err_ne_ok (sym k ∙ returned)),
      λ c k.
          let one : b ≡ c = same_ok (sym returned ∙ k) in
          let key = key_of keyed goes in
          rw (sym one) (
            with_resource b stamp m,
            rw now (rw lookup-insert (rw (==-refl tracker.build_id))),
            λ j. rw (lookup-insert, key),
            goes.at_state,
            goes.same_id,
            Keyed-with_resource b stamp keyed,
          ),
    )
  ]
