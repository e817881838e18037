-- ===== src/World.antt =====
-- Methods that read the clock, draw identifiers, write to the repository and may raise. What was
-- written before a raise stays written, so the world comes back beside the error too. The clock,
-- `uuid4` and the message broker are functions that nothing here defines: their n-th answer.
use docker_jenkins_orchestra.Prelude.{
  ℕ, ◌+◌, String, ◌≡◌, refl, ap, ◌≢◌, Option, none, some, List, [], ◌∷◌, ◌++◌, nat_eq, string_eq,
  option_eq, pair_eq,
}
use docker_jenkins_orchestra.Repository.State.{Repository}

-- The exceptions of the program, by class, with their text.
pub data Error : Type 0 where
  value_error key_error repository_error duplicate_app not_found : String → Error
  build_input invalid_transition resource_conflict : String → Error
  route_check_input route_check_unavailable route_check_conflict adapter_error : String → Error
  -- an exception of Python's own, by class
  python_error : String → String → Error

pub data Result {ℓ} (A : Type ℓ) : Type ℓ where
  ok : A → Result A
  err : Error → Result A

-- orchestrator/tasks.py: the messages of a `TaskDispatcher`
pub data Task : Type 0 where
  start_build : String → Task
  sync_base_images : Task
  cleanup_build : String → Task
  static_route_check : String → ℕ → Task
  dynamic_route_check : String → Option String → Task

-- `broker n` is the identifier of the n-th message, or `none` where sending it raises.
pub record World : Type 0 where
  pub repository : Repository
  pub clock : ℕ → ℕ
  pub ticks : ℕ
  pub uuids : ℕ → String
  pub drawn : ℕ
  pub broker : ℕ → Option String
  pub sent : ℕ
  pub dispatched : List Task

abbrev pub Action {ℓ} : Type ℓ → Type ℓ
Action A = World → Result A × World

module _ {ℓ} {A : Type ℓ} where
  pub pure : A → Action A
  pure a w = (ok a, w)

  pub raise : Error → Action A
  raise e w = (err e, w)

  pub lift : Result A → Action A
  lift r w = (r, w)

pub get_repository : Action Repository
get_repository w = (ok w.repository, w)

pub put_repository : Repository → Action (Unit {0})
put_repository r w = (ok tt, record w { repository = r })

pub utc_now : Action ℕ
utc_now w = (ok (w.clock w.ticks), record w { ticks = w.ticks + 1 })

pub uuid4 : Action String
uuid4 w = (ok (w.uuids w.drawn), record w { drawn = w.drawn + 1 })

-- A message that the broker refuses raises, and is not recorded.
pub dispatch : Task → Action (Option String)
dispatch task w = elim (w.broker w.sent) [
  | none ↦ (ok none, record w { sent = w.sent + 1 })
  | some id ↦ (ok (some id), record w { sent = w.sent + 1; dispatched = w.dispatched ++ task ∷ [] })
]

module _ {ℓ κ} {A : Type ℓ} {B : Type κ} where
  abbrev pub continue : Result A → (A → Action B) → Action B
  continue (ok a) f w = f a w
  continue (err e) f w = (err e, w)

  infixl 10 ◌>>=◌
  unfoldable pub ◌>>=◌ : Action A → (A → Action B) → Action B
  unfolding pure raise lift get_repository put_repository utc_now uuid4 dispatch
  ◌>>=◌ m f w = let (r, w') = m w in continue r f w'

infixl 10 ◌>>◌
abbrev pub ◌>>◌ {ℓ κ} : {A : Type ℓ} {B : Type κ} → Action A → Action B → Action B
m >> n = m >>= λ _. n

-- `try: m except Exception as exc: handler`
module _ {ℓ} {A : Type ℓ} where
  abbrev pub handle : Result A → (Error → Action A) → Action A
  handle (ok a) handler w = (ok a, w)
  handle (err e) handler w = handler e w

  unfoldable pub attempt : Action A → (Error → Action A) → Action A
  attempt m handler w = let (r, w') = m w in handle r handler w'

-- Two actions with one outcome may be exchanged in front of the rest.
pub >>=-cong {ℓ κ} :
    {A : Type ℓ} {B : Type κ} (m n : Action A) (f : A → Action B) (w v : World)
    → m w ≡ n v
    → (m >>= f) w ≡ (n >>= f) v
unfolding ◌>>=◌
>>=-cong {A} m n f w v h = ap (λ (p : Result A × World). continue p.0 f p.1) h

pub pure-ok {ℓ} : {A : Type ℓ} (a b : A) (w : World) → (pure a w).0 ≡ ok b → a ≡ b
unfolding pure
pure-ok a b w h = cc h

pub raise-ok {ℓ} : {A : Type ℓ} (e : Error) (b : A) (w : World) → (raise {A = A} e w).0 ≢ ok b
unfolding raise
raise-ok e b w h = cc h

-- What a sequence that ends well has gone through.
pub >>=-ok {ℓ κ} :
    {A : Type ℓ} {B : Type κ} (m : Action A) (f : A → Action B) (w : World) {b : B}
    → ((m >>= f) w).0 ≡ ok b
    → (a : A) × ((m w).0 ≡ ok a) × ((f a (m w).1).0 ≡ ok b) × ((m >>= f) w ≡ f a (m w).1)
unfolding ◌>>=◌
>>=-ok {A} {B} m f w {b} h = by_result (m w) h
  where
    by_result :
        (p : Result A × World)
        → (continue p.0 f p.1).0 ≡ ok b
        → (a : A) × (p.0 ≡ ok a) × ((f a p.1).0 ≡ ok b) × (continue p.0 f p.1 ≡ f a p.1)
    by_result (ok a, v) k = (a, refl, k, refl)
    by_result (err e, v) k = cc k

-- Reading the repository changes nothing.
pub get_repository-bind {κ} :
    {B : Type κ} (f : Repository → Action B) (w : World)
    → (get_repository >>= f) w ≡ f w.repository w
unfolding ◌>>=◌
get_repository-bind f w = refl

pub lift-ok {ℓ κ} :
    {A : Type ℓ} {B : Type κ} (r : Result A) (f : A → Action B) (w : World) {b : B}
    → ((lift r >>= f) w).0 ≡ ok b
    → (a : A) × (r ≡ ok a) × ((f a w).0 ≡ ok b)
unfolding ◌>>=◌
lift-ok (ok a) f w h = (a, refl, h)
lift-ok (err e) f w h = cc h
