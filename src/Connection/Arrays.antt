-- ===== src/Connection/Arrays.antt =====
-- The loops over the tags and the hosts in a reply to ismaster, on documents of strings: they end, and
-- collect what was written.
use mongo_hhvm_driver.Base.{
  ◌>>=◌, ℕ, zero, suc, ◌+◌, ◌<◌, Option, none, some, List, [], ◌∷◌, ◌++◌, length, ◌≡◌, refl, sym,
  ap, ◌∙◌, arith, append-nil, append_assoc, Option-cases, inl, inr, length-drop, drop, drop_behind,
}
use mongo_hhvm_driver.CLib.{Bytes, codes}
use mongo_hhvm_driver.Bson.Document.{
  Value, tag, print_int32, print_value, Element, print_elements, value_position,
}
use mongo_hhvm_driver.Bson.Fields.{find, read_with, find_as_array}
use mongo_hhvm_driver.Bson.Located.{
  field_of, StandsAt, StandsAt-behind, AllValues, Located, value_position-Located,
  find-print_elements, length-print_elements,
}
use mongo_hhvm_driver.Bson.Values.{HasNul}
use mongo_hhvm_driver.Bson.Strings.{
  IsText, text_of, behind, array_find_next_string-end, array_find_next_string-step,
}
use mongo_hhvm_driver.Connection.Tags.{
  tag_text, add_tag, tags_loop, tags_behind, Hosts, host_step, hosts_loop, passives_behind,
  read_hosts,
}

-- The tags `name:value`, and the values alone
abbrev pub tags_of : List Element → List Bytes
tags_of [] = []
tags_of (x ∷ xs) = tag_text (x.name, text_of x.value) ∷ tags_of xs

abbrev pub texts_of : List Element → List Bytes
texts_of [] = []
texts_of (x ∷ xs) = text_of x.value ∷ texts_of xs

-- The pointer `string` after the loop
abbrev pub last_text : Option Bytes → List Element → Option Bytes
last_text old [] = old
last_text old (x ∷ xs) = last_text (some (text_of x.value)) xs

pub tags_loop-print_elements :
    (xs : List Element) (fuel : ℕ) (buf rest : Bytes) (at : ℕ) (tags : List Bytes)
    → length xs < fuel
    → AllValues IsText xs
    → StandsAt at buf xs rest
    → tags_loop fuel buf at tags ≡ some (tags ++ tags_of xs)
unfolding tags_loop
tags_loop-print_elements xs zero buf rest at tags f t e = absurd (omega arith)
tags_loop-print_elements [] (suc fuel) buf rest at tags f t e =
    rw (array_find_next_string-end buf rest at e) (ap some (sym (append-nil tags)))
tags_loop-print_elements (x ∷ xs) (suc fuel) buf rest at tags f t e =
    let tag : Bytes = tag_text (x.name, text_of x.value) in
    ap (λ step. step >>= add_tag tags (λ later more. tags_loop fuel buf later more))
      (array_find_next_string-step x xs buf rest at t.0 e)
    ∙ (tags_loop-print_elements xs fuel buf rest (behind at x) (tags ++ (tag ∷ [])) (omega arith)
          t.1 (StandsAt-behind x xs buf rest at e)
        ∙ ap some (append_assoc tags (tag ∷ []) (tags_of xs)))

-- The hosts that are added, and the pointer
abbrev pub collected : Hosts → List Element → Hosts
collected hosts xs = record {
  found = hosts.found ++ texts_of xs;
  string = last_text hosts.string xs;
}

pub hosts_loop-print_elements :
    (xs : List Element) (fuel : ℕ) (buf rest : Bytes) (at : ℕ) (hosts : Hosts)
    → length xs < fuel
    → AllValues IsText xs
    → StandsAt at buf xs rest
    → hosts_loop fuel buf at hosts ≡ some (collected hosts xs)
unfolding hosts_loop
hosts_loop-print_elements xs zero buf rest at hosts f t e = absurd (omega arith)
hosts_loop-print_elements [] (suc fuel) buf rest at hosts f t e =
    rw (array_find_next_string-end buf rest at e) (
      ap (λ found. some (record { found = found; string = hosts.string }))
        (sym (append-nil hosts.found)))
hosts_loop-print_elements (x ∷ xs) (suc fuel) buf rest at hosts f t e =
    let text : Bytes = text_of x.value in
    let next_hosts : Hosts = record { found = hosts.found ++ (text ∷ []); string = some text } in
    ap (λ step. step >>= host_step hosts (λ later more. hosts_loop fuel buf later more))
      (array_find_next_string-step x xs buf rest at t.0 e)
    ∙ (hosts_loop-print_elements xs fuel buf rest (behind at x) next_hosts (omega arith) t.1
          (StandsAt-behind x xs buf rest at e)
        ∙ ap (λ found. some (record { found = found; string = last_text (some text) xs }))
            (append_assoc hosts.found (text ∷ []) (texts_of xs)))

print_elements-append :
    (xs : List Element) (r rest : Bytes)
    → print_elements xs r ++ rest ≡ print_elements xs (r ++ rest)
print_elements-append [] r rest = refl
print_elements-append (x ∷ xs) r rest =
    let inner : (print_value x.value ++ print_elements xs r) ++ rest
        ≡ print_value x.value ++ print_elements xs (r ++ rest) =
      append_assoc (print_value x.value) (print_elements xs r) rest
      ∙ ap (λ more. print_value x.value ++ more) (print_elements-append xs r rest) in
    ap (λ more. tag x.value ∷ more)
      (append_assoc x.name (0 ∷ (print_value x.value ++ print_elements xs r)) rest
        ∙ ap (λ more. x.name ++ (0 ∷ more)) inner)

-- The elements of a document stand behind its length.
inner-StandsAt :
    (xs : List Element) (buf r rest : Bytes) (at n : ℕ)
    → drop at buf ≡ print_int32 n ++ (print_elements xs r ++ rest)
    → StandsAt (at + 4) buf xs (r ++ rest)
inner-StandsAt xs buf r rest at n e =
    drop_behind buf (print_int32 n) (print_elements xs r ++ rest) at e
    ∙ print_elements-append xs r rest

enough_fuel :
    (xs : List Element) (buf rest : Bytes) (at : ℕ)
    → StandsAt at buf xs rest
    → length xs < length buf + 1
enough_fuel xs buf rest at e =
    omega (arith, length-drop at buf, ap length e, length-print_elements xs rest)

-- The field is missing, or it is a document of strings.
pub data IsTags : Option Value → List Element → Type 0 where
  no_tags : IsTags none []
  some_tags :
      (ts : List Element) (r : Bytes)
      → AllValues IsText ts
      → IsTags (some (Value.document (print_elements ts r))) ts

-- The field is missing, or it is an array of strings.
pub data IsHosts : Option Value → List Element → Type 0 where
  no_hosts : IsHosts none []
  some_hosts :
      (hs : List Element) (r : Bytes)
      → AllValues IsText hs
      → IsHosts (some (Value.array (print_elements hs r))) hs

pub tags_here :
    {p : Option ℕ} {v : Option Value} (buf : Bytes) (P : Value → Type 0) (ts : List Element)
    → Located buf 3 P p v
    → IsTags v ts
    → (read_with (λ value. some (value + 4)) p >>= tags_behind buf) ≡ some (tags_of ts)
tags_here buf P ts Located.absent IsTags.no_tags = refl
tags_here buf P ts (Located.present at v rest ok t e) (IsTags.some_tags ts' r all) =
    let inner : StandsAt (at + 4) buf ts' (r ++ rest) =
      inner-StandsAt ts' buf r rest at (4 + length (print_elements ts' r)) e in
    tags_loop-print_elements ts' (length buf + 1) buf (r ++ rest) (at + 4) []
      (enough_fuel ts' buf (r ++ rest) (at + 4) inner) all inner

-- The hosts, which are there
hosts_here :
    {p : Option ℕ} {v : Option Value} (buf : Bytes) (P : Value → Type 0) (hs : List Element)
    (hosts : Hosts)
    → Located buf 4 P p v
    → IsHosts v hs
    → (read_with (λ value. some (value + 4)) p >>= passives_behind buf hosts)
      ≡ some (collected hosts hs)
hosts_here buf P hs hosts Located.absent IsHosts.no_hosts =
    ap (λ found. some (record { found = found; string = hosts.string }))
      (sym (append-nil hosts.found))
hosts_here buf P hs hosts (Located.present at v rest ok t e) (IsHosts.some_hosts hs' r all) =
    let inner : StandsAt (at + 4) buf hs' (r ++ rest) =
      inner-StandsAt hs' buf r rest at (4 + length (print_elements hs' r)) e in
    hosts_loop-print_elements hs' (length buf + 1) buf (r ++ rest) (at + 4) hosts
      (enough_fuel hs' buf (r ++ rest) (at + 4) inner) all inner

first_here :
    {p : Option ℕ} {v : Value} (buf : Bytes) (P : Value → Type 0) (hs : List Element)
    → Located buf 4 P p (some v)
    → IsHosts (some v) hs
    → (at : ℕ) × (read_with (λ value. some (value + 4)) p ≡ some (some at))
      × (hosts_loop (length buf + 1) buf at (record { found = []; string = none })
          ≡ some (collected (record { found = []; string = none }) hs))
first_here buf P hs (Located.present at v rest ok t e) (IsHosts.some_hosts hs' r all) =
    let inner : StandsAt (at + 4) buf hs' (r ++ rest) =
      inner-StandsAt hs' buf r rest at (4 + length (print_elements hs' r)) e in
    (
      at + 4,
      refl,
      hosts_loop-print_elements hs' (length buf + 1) buf (r ++ rest) (at + 4) _
          (enough_fuel hs' buf (r ++ rest) (at + 4) inner) all inner,
    )

-- The hosts of a reply that was written from elements, whose field hosts is an array of strings, and
-- whose field passives is one or is missing: both loops end, and the hosts are followed by the passives.
pub read_hosts-print_elements :
    (xs hs ps : List Element) (buf rest : Bytes) (hosts : Value)
    → AllValues HasNul xs
    → StandsAt 4 buf xs rest
    → field_of xs (codes "hosts") 4 ≡ some hosts
    → IsHosts (some hosts) hs
    → IsHosts (field_of xs (codes "passives") 4) ps
    → read_hosts buf ≡ some (texts_of hs ++ texts_of ps)
unfolding read_hosts find_as_array
read_hosts-print_elements xs hs ps buf rest hosts nul e there h k =
    let found : (name : Bytes) → find buf 4 name 4 ≡ some (value_position 4 xs name 4) =
      λ name. find-print_elements xs buf rest name 4 4 (omega arith) e in
    let first : Located buf 4 HasNul (value_position 4 xs (codes "hosts") 4) (some hosts) =
      rw there at (value_position-Located HasNul xs buf rest (codes "hosts") 4 4 nul e) in
    let (at, placed, run) = first_here buf HasNul hs first h in
    let start : Hosts = record { found = []; string = none } in
    let more =
      hosts_here buf HasNul ps (collected start hs)
        (value_position-Located HasNul xs buf rest (codes "passives") 4 4 nul e) k in
    rw (found (codes "hosts"), found (codes "passives"))
      (rw placed
        (elim (Option-cases (
          read_with (λ (value : ℕ). some (value + 4)) (value_position 4 xs (codes "passives") 4))) [
            | inl missing ↦ let no = rw missing at more in cc
            | inr (q, read) ↦
                let all : passives_behind buf (collected start hs) q
                    ≡ some (collected (collected start hs) ps) =
                  rw read at more in
                rw read (rw run (rw all refl))
          ]))
