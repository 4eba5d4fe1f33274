-- ===== src/Scanners/ApiSecurity/Json.antt =====
-- What json.loads and yaml.safe_load answer, with the operations of Python's dicts, lists and texts
-- that the agent applies to it. `none` stands for a TypeError or an AttributeError.
use security_review_ai.Prelude.{
  ℕ, String, str_eq, Bool, true, false, Option, none, some, List, [], ◌∷◌, any, contains, lower,
  if◌then◌else◌,
}

mutual
  pub data Json : Type 0 where
    null : Json
    boolean : Bool → Json
    number : ℕ → Json
    text : String → Json
    array : Items → Json
    object : Members → Json

  pub data Items : Type 0 where
    no_item : Items
    item : Json → Items → Items

  pub data Members : Type 0 where
    no_member : Members
    member : String → Json → Members → Members

abbrev pub elements : Items → List Json
elements no_item = []
elements (item j rest) = j ∷ elements rest

abbrev pub pairs : Members → List (String × Json)
pairs no_member = []
pairs (member key j rest) = (key, j) ∷ pairs rest

abbrev pub find_key : String → List (String × Json) → Option Json
find_key key [] = none
find_key key ((k, j) ∷ rest) = if str_eq k key then some j else find_key key rest

abbrev is_found : Option Json → Bool
is_found none = false
is_found (some j) = true

abbrev is_text : String → Json → Bool
is_text s (text t) = str_eq t s
is_text s j = false

-- `key in j`
abbrev pub has : String → Json → Option Bool
has key (object ms) = some (is_found (find_key key (pairs ms)))
has key (array items) = some (any (is_text key) (elements items))
has key (text t) = some (contains t key)
has key j = none

-- `j.get(key)`, where `some none` is `None`
abbrev pub get_key : String → Json → Option (Option Json)
get_key key (object ms) = some (find_key key (pairs ms))
get_key key j = none

-- `j.items()`
abbrev pub items_of : Json → Option (List (String × Json))
items_of (object ms) = some (pairs ms)
items_of j = none

-- `str(j).lower() == "none"` of the value of a key, with "" for a missing key
abbrev pub is_none_text : Option Json → Bool
is_none_text none = false
is_none_text (some null) = true
is_none_text (some (text t)) = str_eq (lower t) "none"
is_none_text (some j) = false
