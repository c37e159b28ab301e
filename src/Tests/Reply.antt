-- ===== src/Tests/Reply.antt =====
-- The answer of the server of the tests, read field by field.
use mongo_hhvm_driver.Base.{◌+◌, none, some, [], ◌∷◌, ◌++◌, ◌>>=◌, ◌≡◌, refl}
use mongo_hhvm_driver.CLib.{codes, str_eq, split_at}
use mongo_hhvm_driver.Types.{NodeType, Connection}
use mongo_hhvm_driver.Manager.Wire.{supports_wire_version}
use mongo_hhvm_driver.Bson.Fields.{
  find_as_double, find_as_bool, find_as_int32, find_as_int64, find_as_string, find_as_stringl,
  find_as_array, find_as_document,
}
use mongo_hhvm_driver.Bson.Document.{value_position}
use mongo_hhvm_driver.Bson.Located.{field_of, AllValues}
use mongo_hhvm_driver.Bson.Values.{
  as_int32, as_int64, as_double, as_bool, as_text, as_sized_text, HasNul,
}
use mongo_hhvm_driver.Bson.ReadBack.{readers-print_elements}
use mongo_hhvm_driver.Bson.Strings.{IsText}
use mongo_hhvm_driver.Connection.Effect.{Time}
use mongo_hhvm_driver.Connection.Decode.{decode}
use mongo_hhvm_driver.Connection.Tags.{read_hosts}
use mongo_hhvm_driver.Connection.Arrays.{
  tags_of, texts_of, IsTags, IsHosts, read_hosts-print_elements,
}
use mongo_hhvm_driver.Connection.Meaning.{meaning, decode-print_elements}
use mongo_hhvm_driver.Tests.Data.{server_at}
use mongo_hhvm_driver.Tests.Server.{fields, host, hosts, tag_dc, answer}

abbrev con : Connection
con = server_at NodeType.secondary 7 (codes "db2:27017;-;.;4711")

abbrev before : Time
before = record { sec = 100; usec = 900000 }

fields-HasNul : AllValues HasNul fields
unfolding split_at
fields-HasNul = (tt, (refl, (tt, (tt, tt))))

readers-print_elements_example :
    (find_as_int32 answer 4 (codes "setName")
      ≡ some (field_of fields (codes "setName") 16 >>= as_int32))
    × (find_as_int64 answer 4 (codes "setName")
        ≡ some (field_of fields (codes "setName") 18 >>= as_int64))
    × (find_as_double answer 4 (codes "setName")
        ≡ some (field_of fields (codes "setName") 1 >>= as_double))
    × (find_as_bool answer 4 (codes "setName")
        ≡ some (field_of fields (codes "setName") 8 >>= as_bool))
    × (find_as_string answer 4 (codes "setName")
        ≡ some (field_of fields (codes "setName") 2 >>= as_text))
    × (find_as_stringl answer 4 (codes "setName")
        ≡ some (field_of fields (codes "setName") 2 >>= as_sized_text))
    × (find_as_array answer 4 (codes "setName")
        ≡ some (value_position 4 fields (codes "setName") 4 >>= λ value. some (value + 4)))
    × (find_as_document answer 4 (codes "setName")
        ≡ some (value_position 4 fields (codes "setName") 3 >>= λ value. some (value + 4)))
readers-print_elements_example =
    readers-print_elements fields answer [] (codes "setName") 4 fields-HasNul refl

read_hosts-print_elements_example : read_hosts answer ≡ some (texts_of (host ∷ []) ++ texts_of [])
unfolding str_eq split_at
read_hosts-print_elements_example =
    read_hosts-print_elements fields (host ∷ []) [] answer [] hosts.value fields-HasNul refl refl
      (IsHosts.some_hosts (host ∷ []) [] (IsText.a_text (codes "db1:27017" ++ (0 ∷ [])) refl, tt))
      IsHosts.no_hosts

decode-print_elements_example :
    decode supports_wire_version answer before none con
    ≡ some (meaning fields (tags_of (tag_dc ∷ [])) supports_wire_version before con)
unfolding str_eq split_at
decode-print_elements_example =
    decode-print_elements fields answer [] fields-HasNul refl (tag_dc ∷ [])
      (IsTags.some_tags (tag_dc ∷ []) [] (IsText.a_text (codes "ny" ++ (0 ∷ [])) refl, tt))
      supports_wire_version before con
