-- ===== src/Compose/Service/Accepted.antt =====
-- A definition that the validation accepts gives the settings of its service.
use docker_jenkins_orchestra.Prelude.{
  ℕ, String, ◌≡◌, refl, inl, inr, Bool, not, ◌&&◌, Option, none, some, List, [], ◌∷◌, ◌==◌, nat_eq,
  string_eq, Bool-cases, Option-cases, option_eq, pair_eq,
}
use docker_jenkins_orchestra.Prelude.Dict.{Dict, lookup}
use docker_jenkins_orchestra.Deployment.Ports.{PublishedPort}
use docker_jenkins_orchestra.Compose.Ports.{ports}
use docker_jenkins_orchestra.Text.Strings.{split, starts_with_any}
use docker_jenkins_orchestra.Models.Value.{Value, null, str, sequence, mapping, item_list, get_key}
use docker_jenkins_orchestra.Compose.Checked.{reject, ◌>>=◌, each, bind-ok}
use docker_jenkins_orchestra.Compose.Environment.{environment, labels, command, given_labels}
use docker_jenkins_orchestra.Compose.Mounts.{
  mounts, shm_mount, mount_item, short_mount, long_mount, read_mount, short_parts, colon_joined,
  two_or_three,
}
use docker_jenkins_orchestra.Compose.Health.{healthcheck}
use docker_jenkins_orchestra.Compose.Deploy.{mode, restart_policy}
use docker_jenkins_orchestra.Compose.Resources.{resources}
use docker_jenkins_orchestra.Compose.Features.{working_dir, unless_null, check_conversions}
use docker_jenkins_orchestra.Compose.Service.{service_kwargs}
use docker_jenkins_orchestra.World.{Result, ok}

-- a conversion that ends well
abbrev pub Succeeds {ℓ} : {A : Type ℓ} → Result A → Type ℓ
Succeeds {A} r = (a : A) × (r ≡ ok a)

module _ {ℓ κ} {A : Type ℓ} {B : Type κ} (m : Result A) where
  then-Succeeds : (f : A → Result B) → Succeeds m → ((a : A) → Succeeds (f a)) → Succeeds (m >>= f)
  then-Succeeds f (a, h) k = let (b, e) = k a in (b, rw h e)

-- Where each item of a list succeeds with one function, the list does with another.
each-Succeeds {ℓ κ} :
    {A : Type ℓ} {B : Type κ} (f g : A → Result B)
    → ((x : A) → Succeeds (f x) → Succeeds (g x))
    → (xs : List A) → Succeeds (each f xs)
    → Succeeds (each g xs)
each-Succeeds f g h [] s = ([], refl)
each-Succeeds f g h (x ∷ xs) (ys, e) =
    let (y, first, e') = bind-ok (f x) _ e in
    let (rest, later, _) = bind-ok (each f xs) (λ zs. ok (y ∷ zs)) e' in
    let (z, first') = h x (y, first) in
    let (zs, later') = each-Succeeds f g h xs (rest, later) in (z ∷ zs, rw (first', later'))

module _ (sources : Dict String String) where
  short_parts-Succeeds :
      (item : String) (parts : List String)
      → Succeeds (short_parts [] item parts)
      → Succeeds (short_parts sources item parts)
  unfolding lookup
  short_parts-Succeeds item [] h = (item, refl)
  short_parts-Succeeds item (source ∷ rest) (text, h) =
      let relative = two_or_three (source ∷ rest) && starts_with_any (b'.' ∷ b'~' ∷ []) source in
      let bound = two_or_three (source ∷ rest) && not (starts_with_any (b'/' ∷ []) source) in
      elim (Bool-cases relative) [
        | inl refused ↦
            let bad : reject
                  "Compose relative bind volume paths are not supported for Swarm services"
                ≡ ok text =
              rw refused at h in
            cc bad
        | inr kept ↦ elim (Option-cases (lookup source sources)) [
          | inl missing ↦ (item, rw (missing, short_parts) (rw kept refl))
          | inr (physical, found) ↦ elim (Bool-cases bound) [
            | inl named ↦ (colon_joined (physical ∷ rest), rw (found, short_parts) (rw named refl))
            | inr path ↦ (item, rw (found, short_parts) (rw (path, kept) refl))
          ]
        ]
      ]

  long_mount-Succeeds :
      (item : Value) → Succeeds (long_mount [] item) → Succeeds (long_mount sources item)
  unfolding long_mount
  long_mount-Succeeds item (text, h) =
      let (m, read, _) = bind-ok (read_mount item) _ h in
      then-Succeeds (read_mount item) _ (m, read) (λ m. (_, refl))

  mount_item-Succeeds :
      (item : Value) → Succeeds (mount_item [] item) → Succeeds (mount_item sources item)
  unfolding short_mount
  mount_item-Succeeds (str item) (text, h) = elim (Bool-cases (item == "")) [
    | inl empty ↦
        let bad : reject "Compose service volume is invalid" ≡ ok text = rw empty at h in cc bad
    | inr full ↦
        let read : short_mount [] item ≡ ok text = rw full at h in
        let (result, e) = short_parts-Succeeds item (split b':' item) (text, read) in
        (result, rw (full, mount_item) e)
  ]
  mount_item-Succeeds (mapping es) h = long_mount-Succeeds (mapping es) h
  mount_item-Succeeds v (text, h) = cc h

  mounts-Succeeds : (raw : Value) → Succeeds (mounts [] raw) → Succeeds (mounts sources raw)
  unfolding mounts
  mounts-Succeeds null h = ([], refl)
  mounts-Succeeds (sequence vs) h =
      each-Succeeds (mount_item []) (mount_item sources) mount_item-Succeeds (item_list vs) h
  mounts-Succeeds v (texts, h) = cc h

labels-Succeeds :
    (repr : Value → String) (appid appid' name : String) (raw : Value) (namespace : String)
    → Succeeds (labels repr appid name raw none)
    → Succeeds (labels repr appid' name raw (some namespace))
unfolding labels
labels-Succeeds repr appid appid' name raw namespace (ls, h) =
    let (given, read, _) = bind-ok (given_labels repr raw) _ h in
    then-Succeeds (given_labels repr raw) _ (given, read) (λ given. (_, refl))

module _ (repr : Value → String) (parse_bytes : String → Result (Bool × ℕ)) where
  -- Of a definition whose conversions pass the validation: the settings of its service are found,
  -- for every build, application, namespace, network, list of ports and set of volumes.
  pub service_kwargs-Succeeds :
      (services : Dict String Value) (name : String) (definition : Value)
      → check_conversions repr parse_bytes services name definition ≡ ok tt
      → (build_id : Option String) (appid namespace network : String)
        (published : List PublishedPort) (sources : Dict String String)
      → Succeeds (
          service_kwargs repr parse_bytes build_id appid namespace name definition network published
            sources)
  unfolding service_kwargs check_conversions
  service_kwargs-Succeeds services name definition h build_id appid namespace network published
        sources =
      let (env, e1, h1) = bind-ok (environment repr (get_key "environment" definition)) _ h in
      let (ls, e2, h2) =
        bind-ok (labels repr "validation" name (get_key "labels" definition) none) _ h1 in
      let (ps, e3, h3) = bind-ok (ports (get_key "ports" definition)) _ h2 in
      let (argv, e4, h4) = bind-ok (unless_null command (get_key "command" definition)) _ h3 in
      let (dir, e5, h5) = bind-ok (working_dir (get_key "working_dir" definition)) _ h4 in
      let (ms, e6, h6) = bind-ok (mounts [] (get_key "volumes" definition)) _ h5 in
      let (shm, e7, h7) =
        bind-ok (unless_null (shm_mount parse_bytes) (get_key "shm_size" definition)) _ h6 in
      let (health, e8, h8) = bind-ok (healthcheck (get_key "healthcheck" definition)) _ h7 in
      let (replication, e9, h9) = bind-ok (mode (get_key "deploy" definition)) _ h8 in
      let (policy, e10, h10) =
        bind-ok (restart_policy (get_key "restart" definition) (get_key "deploy" definition)) _
          h9 in
      let (limits, e11, _) =
        bind-ok (resources repr parse_bytes (get_key "deploy" definition)) _ h10 in
      let (given, f2) =
        labels-Succeeds repr "validation" appid name (get_key "labels" definition) namespace
          (ls, e2) in
      let (mounted, f6) = mounts-Succeeds sources (get_key "volumes" definition) (ms, e6) in
      then-Succeeds (labels repr appid name (get_key "labels" definition) (some namespace)) _
        (given, f2)
        (λ _.
          then-Succeeds (environment repr (get_key "environment" definition)) _ (env, e1)
            (λ _.
              then-Succeeds (unless_null command (get_key "command" definition)) _ (argv, e4)
                (λ _.
                  then-Succeeds (working_dir (get_key "working_dir" definition)) _ (dir, e5)
                    (λ _.
                      then-Succeeds (mounts sources (get_key "volumes" definition)) _ (mounted, f6)
                        (λ _.
                          then-Succeeds
                            (unless_null (shm_mount parse_bytes) (get_key "shm_size" definition)) _
                            (shm, e7)
                            (λ _.
                              then-Succeeds (mode (get_key "deploy" definition)) _ (replication, e9)
                                (λ _.
                                  then-Succeeds
                                    (restart_policy (get_key "restart" definition)
                                      (get_key "deploy" definition))
                                    _ (policy, e10)
                                    (λ _.
                                      then-Succeeds
                                        (resources repr parse_bytes (get_key "deploy" definition)) _
                                        (limits, e11)
                                        (λ _.
                                          then-Succeeds
                                            (healthcheck (get_key "healthcheck" definition)) _
                                            (health, e8) (λ _. (_, refl)))))))))))
