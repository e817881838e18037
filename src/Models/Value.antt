-- ===== src/Models/Value.antt =====
-- The values of a Python program that come out of JSON or YAML, floats excepted.
use docker_jenkins_orchestra.Prelude.{
  ℕ, zero, suc, String, ◌⊎◌, inl, inr, Bool, true, false, not, ◌&&◌, Option, none, some, List, [],
  ◌∷◌, ◌==◌, nat_eq, string_eq, option_eq, pair_eq,
}
use docker_jenkins_orchestra.Prelude.Dict.{lookup}

-- `negative n` is -(n + 1).
mutual
  pub data Value : Type 0 where
    null : Value
    bool : Bool → Value
    int : ℕ → Value
    negative : ℕ → Value
    str : String → Value
    sequence : Items → Value
    mapping : Entries → Value

  pub data Items : Type 0 where
    nil : Items
    cons : Value → Items → Items

  pub data Entries : Type 0 where
    end : Entries
    entry : String → Value → Entries → Entries

abbrev pub item_list : Items → List Value
item_list nil = []
item_list (cons v vs) = v ∷ item_list vs

abbrev pub entry_list : Entries → List (String × Value)
entry_list end = []
entry_list (entry k v es) = (k, v) ∷ entry_list es

-- `bool(value)`
abbrev pub truthy : Value → Bool
truthy null = false
truthy (bool b) = b
truthy (int zero) = false
truthy (int (suc n)) = true
truthy (negative n) = true
truthy (str s) = not (s == "")
truthy (sequence nil) = false
truthy (sequence (cons v vs)) = true
truthy (mapping end) = false
truthy (mapping (entry k v es)) = true

-- `value.get(key)`, `None` on a missing key and on what is no mapping
abbrev pub get_key : String → Value → Value
get_key key (mapping es) = elim (lookup key (entry_list es)) [ none ↦ null | some v ↦ v ]
get_key key v = null

-- `value.get(key, default)`
abbrev pub get_or : String → Value → Value → Value
get_or key default (mapping es) = elim (lookup key (entry_list es)) [ none ↦ default | some v ↦ v ]
get_or key default v = default

-- `key in value`
abbrev pub has_key : String → Value → Bool
has_key key (mapping es) = elim (lookup key (entry_list es)) [ none ↦ false | some v ↦ true ]
has_key key v = false

abbrev pub is_mapping : Value → Bool
is_mapping (mapping es) = true
is_mapping v = false

abbrev pub is_null : Value → Bool
is_null null = true
is_null v = false

-- the keys of a mapping
abbrev pub key_list : Entries → List String
key_list end = []
key_list (entry k v es) = k ∷ key_list es

-- the number that a value equals in Python, where `True` is 1 and `False` is 0; `inl n` is n and
-- `inr n` is -(n + 1)
abbrev pub numeric : Value → Option (ℕ ⊎ ℕ)
numeric (bool true) = some (inl 1)
numeric (bool false) = some (inl 0)
numeric (int n) = some (inl n)
numeric (negative n) = some (inr n)
numeric v = none

abbrev pub same_number : Option (ℕ ⊎ ℕ) → Option (ℕ ⊎ ℕ) → Bool
same_number (some (inl m)) (some (inl n)) = m == n
same_number (some (inr m)) (some (inr n)) = m == n
same_number _ _ = false

abbrev pub entry_count : Entries → ℕ
entry_count end = 0
entry_count (entry k v es) = suc (entry_count es)

-- Python's `==`: the order of the keys of a mapping does not matter.
abbrev mutual
  pub same_value : Value → Value → Bool
  same_value null null = true
  same_value (str s) (str t) = s == t
  same_value (sequence vs) (sequence ws) = same_items vs ws
  same_value (mapping es) (mapping fs) = entry_count es == entry_count fs && same_entries es fs
  same_value (bool b) w = same_number (numeric (bool b)) (numeric w)
  same_value (int n) w = same_number (some (inl n)) (numeric w)
  same_value (negative n) w = same_number (some (inr n)) (numeric w)
  same_value _ _ = false

  pub same_items : Items → Items → Bool
  same_items nil nil = true
  same_items (cons v vs) (cons w ws) = same_value v w && same_items vs ws
  same_items _ _ = false

  pub same_entries : Entries → Entries → Bool
  same_entries end other = true
  same_entries (entry k v es) other =
      same_entries es other
      && elim (lookup k (entry_list other)) [ none ↦ false | some w ↦ same_value v w ]
