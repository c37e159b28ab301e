-- ===== src/Parse/TagString.antt =====
-- `parse_read_preference_tags` on a value that is written from tags, dc:ny,rack:1.
use mongo_hhvm_driver.Base.{
  true, le→leb, ◌+◌, ◌-◌, List, [], ◌∷◌, ◌++◌, length, map, ◌≡◌, refl, arith, ap, ◌∙◌, leb,
  length-append, take-append_left, append_assoc,
}
use mongo_hhvm_driver.CLib.{Bytes, Lacks, Lacks-append, split_at-append}
use mongo_hhvm_driver.Types.{Tagset, Servers}
use mongo_hhvm_driver.Hash.Split.{dup_between}
use mongo_hhvm_driver.Parse.Tags.{
  add_tag, behind_commas, add_read_tags, tags_from, parse_read_preference_tags,
}

-- A name without colon and comma, and a value without comma.
pub record Tag : Type 0 where
  pub name : Bytes
  pub value : Bytes
  pub name_colon : Lacks b':' name
  pub name_comma : Lacks b',' name
  pub value_comma : Lacks b',' value

abbrev pub print_tag : Tag → Bytes
print_tag tag = tag.name ++ (b':' ∷ tag.value)

-- The first tag and the others, with commas.
abbrev pub print_tags : Tag → List Tag → Bytes
print_tags tag [] = print_tag tag
print_tags tag (next ∷ tags) = print_tag tag ++ (b',' ∷ print_tags next tags)

print_tag-Lacks : (tag : Tag) → Lacks b',' (print_tag tag)
print_tag-Lacks tag =
    Lacks-append b',' tag.name (b':' ∷ tag.value) tag.name_comma (omega arith, tag.value_comma)

behind_commas-Lacks : (s : Bytes) → Lacks b',' s → behind_commas s ≡ []
unfolding behind_commas
behind_commas-Lacks [] h = refl
behind_commas-Lacks (c ∷ cs) h = ground (arith, behind_commas-Lacks cs h.1)

behind_commas-append :
    (s rest : Bytes) → Lacks b',' s → behind_commas (s ++ (b',' ∷ rest)) ≡ rest ∷ behind_commas rest
unfolding behind_commas
behind_commas-append [] rest h = refl
behind_commas-append (c ∷ cs) rest h = ground (arith, behind_commas-append cs rest h.1)

-- The value between the colon and the comma.
value_lem :
    (name value rest : Bytes)
    → dup_between
        (value ++ (b',' ∷ rest))
        (length name + 1)
        (length (name ++ (b':' ∷ (value ++ (b',' ∷ rest)))) - length rest - 1)
      ≡ value
value_lem name value rest =
    let behind : Bytes = value ++ (b',' ∷ rest) in
    let end : length (name ++ (b':' ∷ behind)) - length rest - 1 ≡ length name + 1 + length value =
      omega (arith, length-append name (b':' ∷ behind), length-append value (b',' ∷ rest)) in
    let some_left : leb (length name + 1) (length name + 1 + length value) ≡ true =
      le→leb _ _ (omega arith) in
    let count : length name + 1 + length value - (length name + 1) ≡ length value = omega arith in
    rw (end, some_left, count) (take-append_left value (b',' ∷ rest))

shift :
    (tags : Tagset) (x : Bytes) (more : Tagset) → (tags ++ (x ∷ [])) ++ more ≡ tags ++ (x ∷ more)
shift tags x more = append_assoc tags (x ∷ []) more

tags_from-print_tags :
    (tags : List Tag) (servers : Servers) (tagset : Tagset) (tag : Tag)
    → tags_from servers tagset (print_tags tag tags) (behind_commas (print_tags tag tags))
      ≡ add_read_tags servers (tagset ++ map print_tag (tag ∷ tags))
unfolding tags_from add_tag
tags_from-print_tags [] servers tagset tag =
    rw (behind_commas-Lacks (print_tag tag) (print_tag-Lacks tag))
      (rw (split_at-append b':' tag.name tag.value tag.name_colon, tags_from) refl)
tags_from-print_tags (next ∷ tags) servers tagset tag =
    let rest : Bytes = print_tags next tags in
    let regroup : print_tag tag ++ (b',' ∷ rest)
        ≡ tag.name ++ (b':' ∷ (tag.value ++ (b',' ∷ rest))) =
      append_assoc tag.name (b':' ∷ tag.value) (b',' ∷ rest) in
    rw (behind_commas-append (print_tag tag) rest (print_tag-Lacks tag)) (
      rw regroup (
        rw (split_at-append b':' tag.name (tag.value ++ (b',' ∷ rest)) tag.name_colon, tags_from)
          (rw (value_lem tag.name tag.value rest) (
            tags_from-print_tags tags servers (tagset ++ (print_tag tag ∷ [])) next
            ∙ ap (add_read_tags servers)
                (shift tagset (print_tag tag) (map print_tag (next ∷ tags)))))))

nonempty :
    (servers : Servers) (s : Bytes)
    → (¬ (s ≡ []))
    → parse_read_preference_tags servers s ≡ tags_from servers [] s (behind_commas s)
unfolding parse_read_preference_tags
nonempty servers [] h = absurd (h refl)
nonempty servers (c ∷ cs) h = refl

print_tags-nonempty : (tag : Tag) (tags : List Tag) → ¬ (print_tags tag tags ≡ [])
print_tags-nonempty tag [] h = omega (arith, ap length h, length-append tag.name (b':' ∷ tag.value))
print_tags-nonempty tag (next ∷ tags) h =
    omega (arith, ap length h, length-append (print_tag tag) (b',' ∷ print_tags next tags))

-- The tags that were written, with a colon in each and a comma between each two, are read back in
-- their order, and added to the read preference as one more tag set.
pub parse_tags-print_tags :
    (servers : Servers) (tag : Tag) (tags : List Tag)
    → parse_read_preference_tags servers (print_tags tag tags)
      ≡ add_read_tags servers (map print_tag (tag ∷ tags))
parse_tags-print_tags servers tag tags =
    nonempty servers (print_tags tag tags) (print_tags-nonempty tag tags)
    ∙ tags_from-print_tags tags servers [] tag
