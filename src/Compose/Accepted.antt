-- ===== src/Compose/Accepted.antt =====
-- What `validate_compose` promises of a document that it accepts.
use docker_jenkins_orchestra.Prelude.{
  ℕ, String, ◌≡◌, refl, inl, inr, Bool, false, Option, List, [], ◌∷◌, nat_eq, string_eq, Bool-cases,
  option_eq, pair_eq, All,
}
use docker_jenkins_orchestra.Prelude.Dict.{Dict}
use docker_jenkins_orchestra.Deployment.Order.{
  Outcome, done, failed, out_of_fuel, sort, deployment_order,
}
use docker_jenkins_orchestra.Deployment.Ports.{PublishedPort}
use docker_jenkins_orchestra.Deployment.Order.Members.{sort-none}
use docker_jenkins_orchestra.Models.Value.{Value, has_key}
use docker_jenkins_orchestra.Compose.Checked.{refuse_if, each, bind-ok, refuse_if-ok}
use docker_jenkins_orchestra.Compose.Fields.{keys_with, refuse_keys}
use docker_jenkins_orchestra.Compose.Features.{
  is_rejected, definition_keys, check_conversions, check_definition, validate_compose_features,
}
use docker_jenkins_orchestra.Compose.Document.{
  validate_top_level, compose_services, order_or_reject, validate_compose,
}
use docker_jenkins_orchestra.Compose.Service.{service_kwargs}
use docker_jenkins_orchestra.Compose.Service.Accepted.{Succeeds, service_kwargs-Succeeds}
use docker_jenkins_orchestra.World.{Result, ok}

-- What a loop over a list has gone through.
each-inputs {ℓ κ} :
    {A : Type ℓ} {B : Type κ} (f : A → Result B) (xs : List A) (ys : List B)
    → each f xs ≡ ok ys
    → All (λ x. Succeeds (f x)) xs
each-inputs f [] ys e = tt
each-inputs f (x ∷ xs) ys e =
    let (y, first, e') = bind-ok (f x) _ e in
    let (rest, later, _) = bind-ok (each f xs) (λ zs. ok (y ∷ zs)) e' in
    ((y, first), each-inputs f xs rest later)

All-map {ℓ κ ι} :
    {A : Type ℓ} (P : A → Type κ) (Q : A → Type ι) (xs : List A)
    → ((x : A) → P x → Q x)
    → All P xs
    → All Q xs
All-map P Q [] f h = tt
All-map P Q (x ∷ xs) f (p, h) = (f x p, All-map P Q xs f h)

refuse_keys-none : (message keys : List String) → refuse_keys message keys ≡ ok tt → keys ≡ []
refuse_keys-none message [] h = refl
refuse_keys-none message (k ∷ ks) h = cc h

keys_with-none :
    (p : String → Bool) (ks : List String) → keys_with p ks ≡ [] → All (λ k. p k ≡ false) ks
keys_with-none p [] h = tt
keys_with-none p (k ∷ ks) h = elim (Bool-cases (p k)) [
  | inl kept ↦ let bad : k ∷ keys_with p ks ≡ [] = rw kept at h in cc bad
  | inr dropped ↦
      let rest : keys_with p ks ≡ [] = rw dropped at h in (dropped, keys_with-none p ks rest)
]

order_or_reject-done :
    (o : Outcome (List String)) (order : List String)
    → order_or_reject o ≡ ok order
    → o ≡ done order
order_or_reject-done (done found) order h = let same : found ≡ order = cc h in rw same refl
order_or_reject-done (failed m) order h = cc h
order_or_reject-done out_of_fuel order h = cc h

-- every field is one that the adapter knows, or an extension; none is `env_file`
abbrev pub HasKnownFields : String × Value → Type 0
HasKnownFields (name, definition) =
    All (λ key. is_rejected key ≡ false) (definition_keys definition)
    × (has_key "env_file" definition ≡ false)

module _ (repr : Value → String) (parse_bytes : String → Result (Bool × ℕ)) where
  -- the settings of a service are found, whatever it is deployed under
  abbrev pub HasSettings : String × Value → Type 0
  HasSettings (name, definition) =
      (build_id : Option String) (appid namespace network : String) (published : List PublishedPort)
      (sources : Dict String String)
      → Succeeds (
          service_kwargs repr parse_bytes build_id appid namespace name definition network published
            sources)

  check_definition_sound :
      (services : Dict String Value) (service : String × Value)
      → Succeeds (check_definition repr parse_bytes services service)
      → HasSettings service × HasKnownFields service
  unfolding check_definition
  check_definition_sound services (name, definition) (_, h) =
      let (_, converted, h1) =
        bind-ok (check_conversions repr parse_bytes services name definition) _ h in
      let (_, resolved, h2) = bind-ok (refuse_if (has_key "env_file" definition) _) _ h1 in
      let (_, known, _) =
        bind-ok
          (refuse_keys ("Compose service " ∷ name ∷ " uses unsupported fields: " ∷ [])
            (sort (keys_with is_rejected (definition_keys definition))))
          _ h2 in
      (
        service_kwargs-Succeeds repr parse_bytes services name definition converted,
        (
          keys_with-none is_rejected (definition_keys definition) (
              sort-none _ (
                refuse_keys-none ("Compose service " ∷ name ∷ " uses unsupported fields: " ∷ []) _
                  known)),
          refuse_if-ok _ _ resolved,
        ),
      )

  -- Of a document that the validation accepts: it has services; an order is found for them; and of
  -- each service the settings are found, for every build, application, namespace, network, list of
  -- ports and set of volumes, and every field is supported or an extension, and none is `env_file`.
  pub validate_compose_sound :
      (compose : Value) (require_images : Bool)
      → validate_compose repr parse_bytes compose require_images ≡ ok tt
      → (services : Dict String Value) × (order : List String) × (compose_services compose
          ≡ ok services)
        × (deployment_order services ≡ done order)
        × All (λ service. HasSettings service × HasKnownFields service) services
  unfolding validate_compose validate_compose_features
  validate_compose_sound compose require_images h =
      let (_, _, h1) = bind-ok (validate_top_level compose) _ h in
      let (services, read, h2) = bind-ok (compose_services compose) _ h1 in
      let (_, checked, h3) = bind-ok (validate_compose_features repr parse_bytes services) _ h2 in
      let (order, ordered, _) = bind-ok (order_or_reject (deployment_order services)) _ h3 in
      let (units, each_checked, _) =
        bind-ok (each (check_definition repr parse_bytes services) services) _ checked in
      (
        services,
        order,
        read,
        order_or_reject-done (deployment_order services) order ordered,
        All-map _ _ services (check_definition_sound services)
            (each-inputs (check_definition repr parse_bytes services) services units each_checked),
      )
