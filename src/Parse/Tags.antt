-- ===== src/Parse/Tags.antt =====
-- `parse_read_preference_tags`, and the tag set helpers of src/mcon/read_preference.c that it uses.
use mongo_hhvm_driver.Base.{
  ℕ, ◌+◌, ◌-◌, none, some, List, [], ◌∷◌, ◌++◌, ◌==◌, if◌then◌else◌, length,
}
use mongo_hhvm_driver.CLib.{Bytes, codes, split_at}
use mongo_hhvm_driver.Types.{Tagset, ReadPreference, Servers}
use mongo_hhvm_driver.Hash.Split.{dup_between}
use mongo_hhvm_driver.Parse.Outcome.{Outcome, done, logic_error}

-- mongo_read_preference_add_tag
unfoldable pub add_tag : Tagset → Bytes → Bytes → Tagset
add_tag tagset name value = tagset ++ ((name ++ (b':' ∷ value)) ∷ [])

-- mongo_read_preference_add_tagset
unfoldable pub add_tagset : ReadPreference → Tagset → ReadPreference
add_tagset rp tagset = record rp { tagsets = rp.tagsets ++ (tagset ∷ []) }

-- The values that `start` takes after the first: what stands behind each comma.
unfoldable pub behind_commas : Bytes → List Bytes
behind_commas [] = []
behind_commas (c ∷ cs) = let later = behind_commas cs in if c == b',' then cs ∷ later else later

unfoldable pub no_separator : Bytes → Bytes
no_separator start =
    codes "Error while trying to parse tags: No separator for '" ++ (start ++ codes "'")

abbrev pub add_read_tags : Servers → Tagset → Outcome
add_read_tags servers tagset =
    done (record servers { read_pref = add_tagset servers.read_pref tagset })

-- The `while (1)` loop. `end` is the comma in front of the next start; without a next one it is NULL
-- and the loop ends. A comma in front of the colon makes the length of the value negative.
unfoldable pub tags_from : Servers → Tagset → Bytes → List Bytes → Outcome
unfolding add_tag
tags_from servers tagset start [] = elim (split_at b':' start) [
  | none ↦ logic_error servers (no_separator start)
  | some (name, value) ↦ add_read_tags servers (add_tag tagset name value)
]
tags_from servers tagset start (next ∷ later) = elim (split_at b':' start) [
  | none ↦ logic_error servers (no_separator start)
  | some (name, after_colon) ↦
      let end : ℕ = length start - length next - 1 in
      tags_from servers (add_tag tagset name (dup_between after_colon (length name + 1) end)) next
        later
]

-- parse_read_preference_tags; an empty value is an empty tag set.
unfoldable pub parse_read_preference_tags : Servers → Bytes → Outcome
unfolding tags_from behind_commas
parse_read_preference_tags servers [] = add_read_tags servers []
parse_read_preference_tags servers (c ∷ cs) = tags_from servers [] (c ∷ cs) (behind_commas (c ∷ cs))
