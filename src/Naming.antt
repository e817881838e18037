-- ===== src/Naming.antt =====
-- orchestrator/naming.py: validation of application and build identifiers, and the names that the
-- external resources get. A Python string is the list of its code points; the SHA-256 digests are
-- a parameter, since hashlib is not the program's.
mod Encoding
pub mod Namespace
pub mod Bounds
pub mod Volumes
use docker_jenkins_orchestra.Prelude.{
  ℕ, zero, suc, ◌+◌, ◌-◌, ◌*◌, ◌/◌, ◌%◌, ◌^◌, ◌≤◌, ◌<◌, String, ◌≡◌, refl, sym, ap, ◌∙◌, ◌≢◌, ◌↔◌,
  ◌⊎◌, inl, inr, Bool, true, false, not, ◌&&◌, ◌||◌, Option, none, some, List, [], ◌∷◌, ◌++◌, map,
  arith, eq_iff, ltb, leb, nat_beq, if◌then◌else◌, nat_beq_iff, leb_iff, ltb_iff, Eq, ◌==◌, nat_eq,
  string_eq, concat, Bool-cases, Option-cases, is_some, ==-refl, option_eq, pair_eq, length, take,
  drop, all, any, length-append, length-take, length-drop, All, All-append,
}
use docker_jenkins_orchestra.Text.{codes}
use docker_jenkins_orchestra.Text.Regex.{Regex, cls, seq, alt, star, plus, times, char, fullmatch}

-- `NamingError`, or the value
pub data Named {ℓ} (A : Type ℓ) : Type ℓ where
  named : A → Named A
  naming_error : String → Named A

infixl 10 ◌>>=◌
abbrev pub ◌>>=◌ {ℓ κ} : {A : Type ℓ} {B : Type κ} → Named A → (A → Named B) → Named B
named a >>= f = f a
naming_error e >>= f = naming_error e

abbrev pub is_lower : ℕ → Bool
is_lower c = leb b'a' c && leb c b'z'

abbrev pub is_upper : ℕ → Bool
is_upper c = leb b'A' c && leb c b'Z'

abbrev pub is_digit : ℕ → Bool
is_digit c = leb b'0' c && leb c b'9'

-- `[A-Za-z0-9]`
abbrev pub is_alnum : ℕ → Bool
is_alnum c = is_upper c || is_lower c || is_digit c

-- `[a-z0-9]`
abbrev pub is_lower_alnum : ℕ → Bool
is_lower_alnum c = is_lower c || is_digit c

abbrev pub appid_max_length : ℕ
appid_max_length = 64

-- `^[A-Za-z0-9][A-Za-z0-9_-]*$`
abbrev pub appid_pattern : Regex
appid_pattern = seq (cls is_alnum) (star (cls (λ c. is_alnum c || c == b'_' || c == b'-')))

-- `(?:[._]|__|[-]+)`
abbrev pub separator : Regex
separator =
    alt (cls (λ c. c == b'.' || c == b'_')) (alt (seq (char b'_') (char b'_')) (plus (char b'-')))

-- `^[a-z0-9]+(?:(?:[._]|__|[-]+)[a-z0-9]+)*$`
abbrev pub docker_component_pattern : Regex
docker_component_pattern =
    seq (plus (cls is_lower_alnum)) (star (seq separator (plus (cls is_lower_alnum))))

abbrev pub namespace_prefix : List ℕ
namespace_prefix = codes "appid-v1-"

abbrev pub max_docker_resource_name_length : ℕ
max_docker_resource_name_length = 63

unfoldable pub validate_appid : List ℕ → Named (List ℕ)
validate_appid value =
    if not (leb 1 (length value) && leb (length value) appid_max_length)
    then naming_error "appid must be between 1 and 64 characters"
    else if not (fullmatch appid_pattern value)
    then naming_error
        "appid must start with a letter or number and contain only letters, numbers, underscores, and hyphens"
    else named value

unfoldable pub is_docker_repository_component : List ℕ → Bool
is_docker_repository_component value = fullmatch docker_component_pattern value

abbrev pub starts_with : List ℕ → List ℕ → Bool
starts_with text [] = true
starts_with [] (p ∷ ps) = false
starts_with (c ∷ cs) (p ∷ ps) = c == p && starts_with cs ps

-- the bytes of one character in UTF-8
abbrev pub utf8 : ℕ → List ℕ
utf8 c =
    if ltb c 0x80
    then c ∷ []
    else if ltb c 0x800
    then (0xc0 + c / 64) ∷ (0x80 + c % 64) ∷ []
    else if ltb c 0x10000
    then (0xe0 + c / 4096) ∷ (0x80 + c / 64 % 64) ∷ (0x80 + c % 64) ∷ []
    else (0xf0 + c / 262144) ∷ (0x80 + c / 4096 % 64) ∷ (0x80 + c / 64 % 64) ∷ (0x80 + c % 64) ∷ []

-- `raw.encode("utf-8")`
unfoldable pub encode_utf8 : List ℕ → List ℕ
encode_utf8 [] = []
encode_utf8 (c ∷ cs) = utf8 c ++ encode_utf8 cs

abbrev pub hex_digit : ℕ → ℕ
hex_digit n = if ltb n 10 then b'0' + n else b'a' + (n - 10)

-- `bytes.hex()`
unfoldable pub hex : List ℕ → List ℕ
hex [] = []
hex (b ∷ bs) = hex_digit (b / 16) ∷ hex_digit (b % 16) ∷ hex bs

-- the name of a valid application identifier
unfoldable pub encode_namespace : List ℕ → List ℕ
encode_namespace raw =
    if not (starts_with raw namespace_prefix) && is_docker_repository_component raw
    then raw
    else namespace_prefix ++ hex (encode_utf8 raw)

unfoldable pub external_namespace : List ℕ → Named (List ℕ)
external_namespace appid = do raw ← validate_appid appid; named (encode_namespace raw)

-- `[a-f0-9]{32}`
abbrev pub build_id_pattern : Regex
build_id_pattern = times 32 (cls (λ c. is_digit c || (leb b'a' c && leb c b'f')))

unfoldable pub validate_build_id : List ℕ → Named (List ℕ)
validate_build_id build_id =
    if fullmatch build_id_pattern build_id
    then named build_id
    else naming_error "Build identifier must contain 32 lowercase hexadecimal characters"

-- `json.dumps([first, second], separators=(",", ":"))` of texts that need no escape
abbrev pub identity_text : List ℕ → List ℕ → List ℕ
identity_text first second = codes "[\"" ++ (first ++ (codes "\",\"" ++ (second ++ codes "\"]")))

-- `text.lower()` on the characters of resource names
abbrev pub lower : ℕ → ℕ
lower c = if is_upper c then c + 32 else c

-- `[A-Za-z0-9][A-Za-z0-9_.-]*`
abbrev pub resource_name_pattern : Regex
resource_name_pattern =
    seq (cls is_alnum) (star (cls (λ c. is_alnum c || c == b'_' || c == b'.' || c == b'-')))

-- `hexdigest` is the SHA-256 of the UTF-8 text, as 64 hexadecimal characters.
module _ (hexdigest : List ℕ → List ℕ) where
  -- the JSON text of the two identifiers, whose characters need no escape
  unfoldable pub build_namespace : List ℕ → List ℕ → Named (List ℕ)
  build_namespace appid build_id = do
    app ← validate_appid appid
    build ← validate_build_id build_id
    named (codes "build-v1-" ++ take 32 (hexdigest (identity_text app build)))

  -- `raw`, shortened if it is longer than `max_length`
  unfoldable pub shorten : ℕ → List ℕ → List ℕ
  shorten max_length raw =
      if leb (length raw) max_length
      then raw
      else let digest = take 10 (hexdigest raw) in
        if leb max_length (length digest + 1)
        then take max_length digest
        else let name = take (max_length - length digest - 1) raw ++ (b'-' ∷ digest) in
          drop (length name - max_length) name

  unfoldable pub bounded_resource_name : List ℕ → Option (List ℕ) → ℕ → Named (List ℕ)
  bounded_resource_name [] suffix max_length =
      naming_error "resource name prefix must be a non-empty string"
  bounded_resource_name (p ∷ ps) (some []) max_length =
      naming_error "resource name suffix must be a non-empty string"
  bounded_resource_name (p ∷ ps) none max_length =
      if ltb max_length 1
      then naming_error "resource name max_length must be a positive integer"
      else named (shorten max_length (p ∷ ps))
  bounded_resource_name (p ∷ ps) (some (s ∷ ss)) max_length =
      if ltb max_length 1
      then naming_error "resource name max_length must be a positive integer"
      else named (shorten max_length ((p ∷ ps) ++ (b'-' ∷ (s ∷ ss))))

  unfoldable pub volume_identity_name : List ℕ → List ℕ → List ℕ → List ℕ
  volume_identity_name kind first second =
      let digest = take 32 (hexdigest (identity_text first second)) in
      let readable = map lower (kind ++ (b'-' ∷ (first ++ (b'-' ∷ second)))) in
      take (max_docker_resource_name_length - length digest - 1) readable ++ (b'-' ∷ digest)

  unfoldable pub managed_volume_name : List ℕ → List ℕ → Named (List ℕ)
  managed_volume_name namespace alias =
      if not (is_docker_repository_component namespace)
      then naming_error "managed volume namespace must be a Docker repository component"
      else if not (fullmatch resource_name_pattern alias)
      then naming_error "managed volume alias must be a Docker resource name"
      else named (volume_identity_name (codes "vol-v1") namespace alias)

  unfoldable pub template_volume_alias : List ℕ → List ℕ → Named (List ℕ)
  template_volume_alias component source =
      if not (fullmatch resource_name_pattern component && fullmatch resource_name_pattern source)
      then naming_error "template volume component and source must be Docker resource names"
      else named (volume_identity_name (codes "tplvol-v1") component source)
