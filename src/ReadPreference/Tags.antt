-- ===== src/ReadPreference/Tags.antt =====
-- `candidate_matches_tags` counts equal pairs: this is membership where the connection's tags are
-- all different, and not otherwise. And `squash_tagset` joins the tags.
use mongo_hhvm_driver.Base.{
  ap, length-append, length, arith, ◌<◌, subst, ◌≤◌, ◌<◌, Bool, true, false, some, List, [], ◌∷◌,
  ◌++◌, append-nil, append_assoc, ◌≡◌, ◌≢◌, ◌⊎◌, inl, inr, ◌↔◌, refl, sym, arith, ◌==◌, ==_iff,
  length, Bool-cases, if◌then◌else◌,
}
use mongo_hhvm_driver.CLib.{Bytes, codes, str_eq, str_eq_iff, str_eq_refl, str_eq-ne}
use mongo_hhvm_driver.Types.{Connection, Tagset}
use mongo_hhvm_driver.Str.{Str, init, add}
use mongo_hhvm_driver.Str.Append.{Holds, str_limit, addl-Holds}
use mongo_hhvm_driver.ReadPreference.Candidates.{count_tag, count_found, candidate_matches_tags}
use mongo_hhvm_driver.ReadPreference.Find.{squash_onto, squash_tagset}

abbrev pub Has : Bytes → List Bytes → Type 0
Has tag [] = ⊥
Has tag (t ∷ tags) = (tag ≡ t) ⊎ Has tag tags

abbrev pub AllDifferent : List Bytes → Type 0
AllDifferent [] = Unit
AllDifferent (t ∷ tags) = (¬ Has t tags) × AllDifferent tags

abbrev pub HasAll : Tagset → List Bytes → Type 0
HasAll [] tags = Unit
HasAll (tag ∷ tagset) tags = Has tag tags × HasAll tagset tags

count_tag-zero : (tag : Bytes) (tags : List Bytes) → (¬ Has tag tags) → count_tag tag tags ≡ 0
unfolding count_tag
count_tag-zero tag [] h = refl
count_tag-zero tag (t ∷ tags) h = elim (Bool-cases (str_eq tag t)) [
  | inl same ↦ absurd (h (inl ((str_eq_iff tag t).0 same)))
  | inr other ↦ rw other (omega (arith, count_tag-zero tag tags (λ k. h (inr k))))
]

count_tag_pos : (tag : Bytes) (tags : List Bytes) → 0 < count_tag tag tags → Has tag tags
unfolding count_tag
count_tag_pos tag [] h = absurd (omega arith)
count_tag_pos tag (t ∷ tags) h = elim (Bool-cases (str_eq tag t)) [
  | inl same ↦ inl ((str_eq_iff tag t).0 same)
  | inr other ↦ inr (count_tag_pos tag tags (omega (arith, rw other at h)))
]

count_tag-one :
    (tag : Bytes) (tags : List Bytes) → AllDifferent tags → Has tag tags → count_tag tag tags ≡ 1
unfolding count_tag
count_tag-one tag [] d h = absurd h
count_tag-one tag (t ∷ tags) d (inl e) =
    rw ((str_eq_iff tag t).1 e)
      (omega (arith, count_tag-zero tag tags (λ k. d.0 (subst (λ s. Has s tags) e k))))
count_tag-one tag (t ∷ tags) d (inr k) = elim (Bool-cases (str_eq tag t)) [
  | inl same ↦ absurd (d.0 (subst (λ s. Has s tags) ((str_eq_iff tag t).0 same) k))
  | inr other ↦ rw other (omega (arith, count_tag-one tag tags d.1 k))
]

count_tag-le : (tag : Bytes) (tags : List Bytes) → AllDifferent tags → count_tag tag tags ≤ 1
count_tag-le tag tags d = elim (Bool-cases (count_tag tag tags == 0)) [
  | inl zero_count ↦ ground arith
  | inr positive ↦ omega (arith, count_tag-one tag tags d (count_tag_pos tag tags (ground arith)))
]

count_found-le :
    (tagset : Tagset) (tags : List Bytes)
    → AllDifferent tags
    → count_found tagset tags ≤ length tagset
unfolding count_found
count_found-le [] tags d = omega arith
count_found-le (tag ∷ tagset) tags d =
    omega (arith, count_tag-le tag tags d, count_found-le tagset tags d)

count_found-HasAll :
    (tagset : Tagset) (tags : List Bytes)
    → AllDifferent tags
    → (count_found tagset tags ≡ length tagset) ↔ HasAll tagset tags
unfolding count_found
count_found-HasAll [] tags d = (λ _. tt, λ _. refl)
count_found-HasAll (tag ∷ tagset) tags d =
    let rest = count_found-HasAll tagset tags d in
    (
      λ e. (
        count_tag_pos tag tags (omega (arith, count_found-le tagset tags d)),
        rest.0 (omega (arith, count_tag-le tag tags d, count_found-le tagset tags d)),
      ),
      λ h. omega (arith, count_tag-one tag tags d h.0, rest.1 h.1),
    )

-- For a connection whose tags are all different, the tag set matches exactly when the connection has
-- each of its tags.
pub candidate_matches_tags_iff :
    (con : Connection) (tagset : Tagset)
    → AllDifferent con.tags
    → (candidate_matches_tags con tagset ≡ true) ↔ HasAll tagset con.tags
unfolding candidate_matches_tags
candidate_matches_tags_iff con tagset d =
    let count = count_found-HasAll tagset con.tags d in
    (λ h. count.0 ((==_iff _ _).0 h), λ h. (==_iff _ _).1 (count.1 h))

-- A connection that has a tag twice passes a tag set of that tag and one that it does not have.
pub repeated_tag_matches :
    (con : Connection) (tag other : Bytes)
    → con.tags ≡ tag ∷ tag ∷ []
    → tag ≢ other
    → (candidate_matches_tags con (tag ∷ other ∷ []) ≡ true)
      × (¬ HasAll (tag ∷ other ∷ []) con.tags)
unfolding candidate_matches_tags count_found count_tag
repeated_tag_matches con tag other e ne = rw e (
  rw (str_eq_refl tag, str_eq-ne other tag (λ q. ne (sym q))) refl,
  λ h. elim h.1.0 [
    | inl q ↦ ne (sym q)
    | inr more ↦ elim more [ inl q ↦ ne (sym q) | inr none_left ↦ none_left ]
  ],
)

-- The tags with a comma and a space between each two.
abbrev pub joined : Bool → Tagset → Bytes
joined later [] = []
joined later (tag ∷ tags) = (if later then codes ", " else []) ++ (tag ++ joined true tags)

regroup : (a b c d : Bytes) → ((a ++ b) ++ c) ++ d ≡ a ++ (b ++ (c ++ d))
regroup a b c d = simp append_assoc

squash_onto-Holds :
    (tags : Tagset) (str : Str) (bytes : Bytes) (later : Bool)
    → Holds str bytes
    → length (bytes ++ joined later tags) < str_limit
    → (str' : Str) × (squash_onto str later tags ≡ some str')
      × Holds str' (bytes ++ joined later tags)
unfolding squash_onto add
squash_onto-Holds [] str bytes later h short = (str, refl, rw append-nil h)
squash_onto-Holds (tag ∷ tags) str bytes false h short =
    let same = append_assoc bytes tag (joined true tags) in
    let (s₁, e₁, h₁, _) =
      addl-Holds str bytes tag h
        (omega (arith, ap length same, length-append (bytes ++ tag) (joined true tags))) in
    let (s₂, e₂, h₂) =
      squash_onto-Holds tags s₁ (bytes ++ tag) true h₁ (omega (arith, ap length same)) in
    (s₂, rw e₁ e₂, subst (Holds s₂) same h₂)
squash_onto-Holds (tag ∷ tags) str bytes true h short =
    let same = regroup bytes (codes ", ") tag (joined true tags) in
    let total : length (((bytes ++ codes ", ") ++ tag) ++ joined true tags) < str_limit =
      rw same short in
    let cut = length-append ((bytes ++ codes ", ") ++ tag) (joined true tags) in
    let (s₀, e₀, h₀, _) =
      addl-Holds str bytes (codes ", ") h
        (omega (arith, total, cut, length-append (bytes ++ codes ", ") tag)) in
    let (s₁, e₁, h₁, _) = addl-Holds s₀ (bytes ++ codes ", ") tag h₀ (omega (arith, total, cut)) in
    let (s₂, e₂, h₂) = squash_onto-Holds tags s₁ ((bytes ++ codes ", ") ++ tag) true h₁ total in
    (s₂, rw e₀ (rw e₁ e₂), subst (Holds s₂) same h₂)

init-Holds : Holds init []
init-Holds = record {
  used = refl;
  allocated = refl;
  front = refl;
  room = omega arith;
  lean = omega arith;
  terminated = inl refl;
}

-- A tag set that squashes to fewer than 2 ^ 30 - 512 bytes: they are the tags in their order, joined by
-- a comma and a space.
pub squash_tagset-Holds :
    (tagset : Tagset)
    → length (joined false tagset) < str_limit
    → (str : Str) × (squash_tagset tagset ≡ some str) × Holds str (joined false tagset)
unfolding squash_tagset
squash_tagset-Holds tagset short = squash_onto-Holds tagset init [] false init-Holds short
