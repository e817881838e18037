-- ===== src/Compose/Fields.antt =====
-- The fields of a mapping: those that are not supported, and the settings that are built up.
use docker_jenkins_orchestra.Prelude.{
  String, Bool, not, Option, none, some, List, [], ◌∷◌, ◌++◌, if◌then◌else◌, nat_eq, string_eq,
  concat, option_eq, pair_eq,
}
use docker_jenkins_orchestra.Prelude.Dict.{Dict}
use docker_jenkins_orchestra.Text.{codes}
use docker_jenkins_orchestra.Naming.{starts_with}
use docker_jenkins_orchestra.Deployment.Order.{member, sort}
use docker_jenkins_orchestra.Models.Value.{Value, str, Entries, Items, end, entry, nil, cons}
use docker_jenkins_orchestra.Compose.Checked.{reject}
use docker_jenkins_orchestra.World.{Result, ok}

-- `", ".join(texts)`
abbrev pub comma_joined : List String → String
comma_joined [] = ""
comma_joined (s ∷ []) = s
comma_joined (s ∷ (t ∷ ts)) = concat (s ∷ ", " ∷ comma_joined (t ∷ ts) ∷ [])

-- the keys that pass a test, in order
abbrev pub keys_with : (String → Bool) → List String → List String
keys_with p [] = []
keys_with p (k ∷ ks) = let rest = keys_with p ks in if p k then k ∷ rest else rest

-- `sorted(set(keys) - allowed)`
abbrev pub unsupported : List String → List String → List String
unsupported allowed keys = sort (keys_with (λ k. not (member k allowed)) keys)

-- raises where keys are left, which the message lists
abbrev pub refuse_keys : List String → List String → Result (Unit {0})
refuse_keys message [] = ok tt
refuse_keys message (k ∷ ks) = reject (concat (message ++ comma_joined (k ∷ ks) ∷ []))

-- a key that is not there yet, behind the others
abbrev pub put_last : String → Value → Entries → Entries
put_last key value end = entry key value end
put_last key value (entry k v es) = entry k v (put_last key value es)

-- the same, of a value that may be missing
abbrev pub put_some : String → Option Value → Entries → Entries
put_some key none es = es
put_some key (some value) es = put_last key value es

abbrev pub texts : List String → Items
texts [] = nil
texts (s ∷ ss) = cons (str s) (texts ss)

abbrev pub text_entries : Dict String String → Entries
text_entries [] = end
text_entries ((key, value) ∷ es) = entry key (str value) (text_entries es)

-- `key.startswith("x-")`
abbrev pub is_extension : String → Bool
is_extension key = starts_with (codes key) (codes "x-")
