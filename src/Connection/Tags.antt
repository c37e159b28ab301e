-- ===== src/Connection/Tags.antt =====
-- The arrays that `mongo_connection_ismaster` reads: tags and hosts. The loops end when `bson_next`
-- returns NULL; a walk that is longer than the buffer has no end.
use mongo_hhvm_driver.Base.{
  ◌>>=◌, ℕ, zero, suc, ◌+◌, Option, none, some, List, [], ◌∷◌, ◌++◌, length,
}
use mongo_hhvm_driver.CLib.{Bytes, codes}
use mongo_hhvm_driver.Types.{Connection}
use mongo_hhvm_driver.Bson.Fields.{
  ArrayStep, find_as_array, find_as_document, array_find_next_string,
}

-- A tag, `name:value`
abbrev pub tag_text : Bytes × Bytes → Bytes
tag_text (name, value) = name ++ (b':' ∷ value)

abbrev pub add_tag :
    List Bytes → (ℕ → List Bytes → Option (List Bytes)) → ArrayStep Bytes → Option (List Bytes)
add_tag tags loop step = elim step.next_at [
  | none ↦ some tags
  | some at ↦ elim step.item [ none ↦ none | some item ↦ loop at (tags ++ (tag_text item ∷ [])) ]
]

-- The tags. A value that is no string leaves the pointers as they are: unset, or already freed.
unfoldable pub tags_loop : ℕ → Bytes → ℕ → List Bytes → Option (List Bytes)
unfolding array_find_next_string
tags_loop zero buffer at tags = none
tags_loop (suc fuel) buffer at tags =
    array_find_next_string buffer at
    >>= add_tag tags (λ later more. tags_loop fuel buffer later more)

abbrev pub tags_behind : Bytes → Option ℕ → Option (List Bytes)
tags_behind buffer none = some []
tags_behind buffer (some at) = tags_loop (length buffer + 1) buffer at []

unfoldable pub read_tags : Bytes → Connection → Option Connection
unfolding find_as_document tags_loop
read_tags buffer con = do
  document ← find_as_document buffer 4 (codes "tags")
  tags ← tags_behind buffer document
  some (record con { tags = tags })

-- The hosts so far, and the pointer `string`, which keeps its value where an element is no string
pub record Hosts : Type 0 where
  pub found : List Bytes
  pub string : Option Bytes

abbrev pub string_of : Option Bytes → Option (Bytes × Bytes) → Option Bytes
string_of old none = old
string_of old (some (name, value)) = some value

abbrev pub host_step : Hosts → (ℕ → Hosts → Option Hosts) → ArrayStep Bytes → Option Hosts
host_step hosts loop step =
    let string = string_of hosts.string step.item in
    elim step.next_at [
      | none ↦ some (record hosts { string = string })
      | some at ↦ elim string [
        | none ↦ none
        | some host ↦ loop at (record { found = hosts.found ++ (host ∷ []); string = some host })
      ]
    ]

unfoldable pub hosts_loop : ℕ → Bytes → ℕ → Hosts → Option Hosts
unfolding array_find_next_string
hosts_loop zero buffer at hosts = none
hosts_loop (suc fuel) buffer at hosts =
    array_find_next_string buffer at
    >>= host_step hosts (λ later more. hosts_loop fuel buffer later more)

abbrev pub passives_behind : Bytes → Hosts → Option ℕ → Option Hosts
passives_behind buffer hosts none = some hosts
passives_behind buffer hosts (some at) = hosts_loop (length buffer + 1) buffer at hosts

-- The hosts and the passive ones. Without hosts the pointer is not set, and following it is
-- undefined.
unfoldable pub read_hosts : Bytes → Option (List Bytes)
unfolding find_as_array hosts_loop
read_hosts buffer = do
  hosts ← find_as_array buffer 4 (codes "hosts")
  passives ← find_as_array buffer 4 (codes "passives")
  at ← hosts
  first ← hosts_loop (length buffer + 1) buffer at (record { found = []; string = none })
  all ← passives_behind buffer first passives
  some all.found
