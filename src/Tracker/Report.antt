-- ===== src/Tracker/Report.antt =====
-- The resource that `record` makes of a report and of the resource that is known.
use docker_jenkins_orchestra.Prelude.{
  ℕ, String, ◌≡◌, refl, sym, ap, ◌∙◌, inl, inr, false, Option, none, some, arith, eq_iff, nat_eq,
  string_eq, Bool-cases, option_eq, pair_eq,
}
use docker_jenkins_orchestra.Models.Resources.{BuildResource}
use docker_jenkins_orchestra.Repository.Resources.Put.{same_ok}
use docker_jenkins_orchestra.Tracker.{
  conflict, change_unless, ResourceReport, other_id, id_or, changed, resource_after,
}
use docker_jenkins_orchestra.World.{World, ok, ◌>>=◌}

other_id-same :
    (new known : Option String) (x : String)
    → other_id new known ≡ false
    → known ≡ some x
    → id_or new known ≡ some x
other_id-same none known x same e = e
other_id-same (some new) none x same e = cc
other_id-same (some new) (some y) x same e = ground (arith, eq_iff y new, eq_iff new "")

-- The resource that is made stands for the same thing as the one that is known.
pub record Continues (key : String) (report : ResourceReport) (o : Option BuildResource)
    (b : BuildResource) : Type 0 where
  pub at_state : b.state ≡ report.state
  pub new_key : o ≡ none → b.key ≡ key
  pub old_key : (old : BuildResource) → o ≡ some old → b.key ≡ old.key
  pub same_id :
      (old : BuildResource) (x : String)
      → o ≡ some old
      → old.native_id ≡ some x
      → b.native_id ≡ some x

no_conflict :
    (report : ResourceReport) (existing : BuildResource)
    → conflict report existing ≡ none
    → other_id report.native_id existing.native_id ≡ false
unfolding conflict
no_conflict report existing h = elim (Bool-cases (other_id report.native_id existing.native_id)) [
  | inl clash ↦ let bad : some "Resource identity changed" ≡ none = rw clash at h in cc bad
  | inr same ↦ same
]

changed-Continues :
    (key : String) (report : ResourceReport) (existing : BuildResource) (now : ℕ)
    → conflict report existing ≡ none
    → Continues key report (some existing) (changed report existing now)
changed-Continues key report existing now agrees = record {
  at_state = refl;
  new_key = λ e. cc e;
  old_key = λ old e. let one : existing ≡ old = cc e in ap (λ b. b.key) one;
  same_id = λ old x e known.
      let one : existing ≡ old = cc e in
      other_id-same report.native_id existing.native_id x (no_conflict report existing agrees)
        (ap (λ b. b.native_id) one ∙ known);
}

pub resource_after-repository :
    (key : String) (report : ResourceReport) (o : Option BuildResource) (w : World)
    → (resource_after key report o w).1.repository ≡ w.repository
unfolding ◌>>=◌
resource_after-repository key report none w = refl
resource_after-repository key report (some existing) w = by_conflict (conflict report existing)
  where
    by_conflict :
        (c : Option String) → (change_unless c report existing w).1.repository ≡ w.repository
    by_conflict (some message) = refl
    by_conflict none = refl

pub resource_after-Continues :
    (key : String) (report : ResourceReport) (o : Option BuildResource) (w : World)
    (b : BuildResource)
    → (resource_after key report o w).0 ≡ ok b
    → Continues key report o b
unfolding ◌>>=◌
resource_after-Continues key report none w b h = rw (sym (same_ok h)) (record {
  at_state = refl;
  new_key = λ e. refl;
  old_key = λ old e. cc e;
  same_id = λ old x e k. cc e;
})
resource_after-Continues key report (some existing) w b h =
    by_conflict (conflict report existing) refl h
  where
    by_conflict :
        (c : Option String)
        → conflict report existing ≡ c
        → (change_unless c report existing w).0 ≡ ok b
        → Continues key report (some existing) b
    by_conflict (some message) e k = cc k
    by_conflict none e k = rw (sym (same_ok k)) (changed-Continues key report existing _ e)
