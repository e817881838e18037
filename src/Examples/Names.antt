-- ===== src/Examples/Names.antt =====
-- Names of one application and of its volumes.
use docker_jenkins_orchestra.Prelude.{
  ℕ, zero, suc, ◌+◌, ◌≤◌, ◌≡◌, ◌≢◌, ◌↔◌, refl, ap, true, some, List, [], ◌∷◌, ◌++◌, arith, nat_eq,
  string_eq, option_eq, pair_eq, length, take, drop, length-append, length-take,
}
use docker_jenkins_orchestra.Text.{codes}
use docker_jenkins_orchestra.Text.Regex.{fullmatch}
use docker_jenkins_orchestra.Naming.{
  named, identity_text, external_namespace, is_docker_repository_component, validate_appid,
  encode_namespace, encode_utf8, hex, shorten, bounded_resource_name, managed_volume_name,
  volume_identity_name,
}
use docker_jenkins_orchestra.Naming.Namespace.{
  external_namespace-injective, external_namespace-IsComponent,
}
use docker_jenkins_orchestra.Naming.Bounds.{bounded_resource_name_fits, managed_volume_name_fits}
use docker_jenkins_orchestra.Naming.Volumes.{managed_volume_name-injective}

-- an identifier with a capital letter, which is rewritten
accepted : external_namespace (codes "Ab") ≡ named (codes "appid-v1-4162")
unfolding external_namespace validate_appid encode_namespace encode_utf8 hex
    is_docker_repository_component fullmatch
accepted = refl

external_namespace-injective_example : codes "Ab" ≡ codes "Ab"
external_namespace-injective_example =
    external_namespace-injective (codes "Ab") (codes "Ab") (codes "appid-v1-4162") accepted accepted

external_namespace-IsComponent_example :
    (is_docker_repository_component (codes "appid-v1-4162") ≡ true)
    × (length (codes "appid-v1-4162") ≤ 137)
external_namespace-IsComponent_example =
    external_namespace-IsComponent (codes "Ab") (codes "appid-v1-4162") accepted

-- a digest that repeats the text in its first characters
abbrev repeated : ℕ → ℕ → List ℕ
repeated zero c = []
repeated (suc n) c = c ∷ repeated n c

abbrev digest : List ℕ → List ℕ
digest s = take 64 (s ++ repeated 64 b'0')

digest-full : (s : List ℕ) → length (digest s) ≡ 64
digest-full s = length-take 64 _ (ground (arith, length-append s (repeated 64 b'0')))

abbrev long : List ℕ
long = codes "a-long-name"

bounded : bounded_resource_name digest (codes "a-long") (some (codes "name")) 16 ≡ named long
unfolding bounded_resource_name shorten
bounded = refl

bounded_resource_name_fits_example :
    (length long ≤ 16)
    × (length (codes "a-long") + 1 + length (codes "name") ≤ 16
        → long ≡ codes "a-long" ++ (b'-' ∷ codes "name"))
bounded_resource_name_fits_example =
    bounded_resource_name_fits digest digest-full (codes "a-long") (codes "name") 16 long bounded

abbrev volume : List ℕ
volume = volume_identity_name digest (codes "vol-v1") (codes "shop") (codes "data")

managed : managed_volume_name digest (codes "shop") (codes "data") ≡ named volume
unfolding managed_volume_name is_docker_repository_component fullmatch
managed = refl

managed_volume_name_fits_example : length volume ≤ 63
managed_volume_name_fits_example =
    managed_volume_name_fits digest digest-full (codes "shop") (codes "data") volume managed

abbrev logs : List ℕ
logs = volume_identity_name digest (codes "vol-v1") (codes "shop") (codes "logs")

managed_logs : managed_volume_name digest (codes "shop") (codes "logs") ≡ named logs
unfolding managed_volume_name is_docker_repository_component fullmatch
managed_logs = refl

-- the first character of an alias in the identity text of `shop`
abbrev alias_start : List ℕ → ℕ
alias_start text = elim (drop 9 text) [ [] ↦ 0 | c ∷ cs ↦ c ]

digests_differ :
    take 32 (digest (identity_text (codes "shop") (codes "data")))
    ≢ take 32 (digest (identity_text (codes "shop") (codes "logs")))
digests_differ e = let same : ◌≡◌ {A = ℕ} b'd' b'l' = ap alias_start e in absurd (omega arith)

managed_volume_name-injective_example :
    (volume ≡ logs) ↔ ((codes "shop" ≡ codes "shop") × (codes "data" ≡ codes "logs"))
managed_volume_name-injective_example =
    managed_volume_name-injective digest digest-full (codes "shop") (codes "data") (codes "shop")
      (codes "logs") volume logs (λ e. absurd (digests_differ e)) managed managed_logs
