-- ===== src/Compose/Mounts.antt =====
-- `_mounts` and `_shm_mount` of orchestrator/docker_services.py.
use docker_jenkins_orchestra.Prelude.{
  ℕ, String, Bool, true, false, not, ◌&&◌, ◌||◌, none, some, List, [], ◌∷◌, leb, if◌then◌else◌,
  ◌==◌, nat_eq, string_eq, concat, option_eq, pair_eq, length,
}
use docker_jenkins_orchestra.Prelude.Dict.{Dict, lookup}
use docker_jenkins_orchestra.Text.Strings.{split, starts_with_any}
use docker_jenkins_orchestra.Models.Value.{
  Value, null, bool, int, str, sequence, mapping, end, entry, item_list, get_key, get_or,
}
use docker_jenkins_orchestra.Compose.Checked.{
  reject, ◌>>=◌, ◌>>◌, refuse_if, each, text_among, positive, caught, number_of,
}
use docker_jenkins_orchestra.World.{Result, ok}

-- `":".join(parts)`
abbrev pub colon_joined : List String → String
colon_joined [] = ""
colon_joined (part ∷ []) = part
colon_joined (part ∷ (next ∷ parts)) = concat (part ∷ ":" ∷ colon_joined (next ∷ parts) ∷ [])

abbrev pub two_or_three : List String → Bool
two_or_three parts = length parts == 2 || length parts == 3

abbrev pub short_parts : Dict String String → String → List String → Result String
short_parts sources item [] = ok item
short_parts sources item (source ∷ rest) = elim (lookup source sources) [
  | some physical ↦
      if two_or_three (source ∷ rest) && not (starts_with_any (b'/' ∷ []) source)
      then ok (colon_joined (physical ∷ rest))
      else if two_or_three (source ∷ rest) && starts_with_any (b'.' ∷ b'~' ∷ []) source
      then reject "Compose relative bind volume paths are not supported for Swarm services"
      else ok item
  | none ↦
      if two_or_three (source ∷ rest) && starts_with_any (b'.' ∷ b'~' ∷ []) source
      then reject "Compose relative bind volume paths are not supported for Swarm services"
      else ok item
]

unfoldable pub short_mount : Dict String String → String → Result String
short_mount sources item = short_parts sources item (split b':' item)

-- source and target, if both are texts that are allowed
abbrev pub mount_ends : Value → Value → Result (String × String)
mount_ends (str source) (str target) =
    if not (source == "") && starts_with_any (b'/' ∷ []) target
    then ok (source, target)
    else reject "Compose service volume is invalid"
mount_ends _ _ = reject "Compose service volume is invalid"

-- `value not in (None, True, False)`, where 0 and 1 equal `False` and `True`
abbrev pub is_flag : Value → Bool
is_flag null = true
is_flag (bool b) = true
is_flag (int n) = leb n 1
is_flag v = false

abbrev pub access_of : Value → String
access_of (bool true) = "ro"
access_of v = "rw"

abbrev pub is_bind : Value → Bool
is_bind (str s) = s == "bind"
is_bind v = false

-- a volume under its physical name, if it has one
abbrev pub physical_source : Dict String String → Bool → String → String
physical_source sources true source = source
physical_source sources false source = elim (lookup source sources) [
  | none ↦ source
  | some physical ↦ physical
]

-- What the long form says: source, target, whether it binds a path, and the access.
pub record LongMount : Type 0 where
  pub source : String
  pub target : String
  pub binds : Bool
  pub access : String

unfoldable pub read_mount : Value → Result LongMount
read_mount item = do
  (source, target) ← mount_ends (get_key "source" item) (get_key "target" item)
  let mount_type = get_or "type" (str "volume") item
  known ← text_among ("volume" ∷ "bind" ∷ []) mount_type
  refuse_if (not known) "Compose service volume type is invalid"
  refuse_if (is_bind mount_type && not (starts_with_any (b'/' ∷ []) source))
      "Compose relative bind volume paths are not supported for Swarm services"
  refuse_if (not (is_flag (get_key "read_only" item)))
      "Compose service volume read_only flag is invalid"
  ok (record {
    source = source;
    target = target;
    binds = is_bind mount_type;
    access = access_of (get_key "read_only" item);
  })

unfoldable pub long_mount : Dict String String → Value → Result String
long_mount sources item = do
  m ← read_mount item
  ok (concat (physical_source sources m.binds m.source ∷ ":" ∷ m.target ∷ ":" ∷ m.access ∷ []))

abbrev pub mount_item : Dict String String → Value → Result String
mount_item sources (str item) =
    if item == "" then reject "Compose service volume is invalid" else short_mount sources item
mount_item sources (mapping es) = long_mount sources (mapping es)
mount_item sources v = reject "Compose service volume is invalid"

-- `volume_sources` is empty where the caller gives none
unfoldable pub mounts : Dict String String → Value → Result (List String)
mounts sources null = ok []
mounts sources (sequence vs) = each (mount_item sources) (item_list vs)
mounts sources v = reject "Compose service volumes must be a list"

-- `parse_bytes` is docker.utils.parse_bytes: a sign (true for minus) and a number.
module _ (parse_bytes : String → Result (Bool × ℕ)) where
  -- `parse_bytes(raw) if isinstance(raw, str) else int(raw)`
  abbrev pub byte_count : Value → Result (Bool × ℕ)
  byte_count (str s) = parse_bytes s
  byte_count v = number_of v

  unfoldable pub shm_mount : Value → Result Value
  shm_mount raw = do
    size ← caught "Compose shm_size is invalid" (byte_count raw)
    bytes ← positive "Compose shm_size is invalid" size
    ok (
        mapping (
          entry "Type" (str "tmpfs") (
            entry "Source" (str "") (
              entry "Target" (str "/dev/shm") (
                entry "ReadOnly" (bool false)
                  (entry "TmpfsOptions" (mapping (entry "SizeBytes" (int bytes) end)) end))))))
