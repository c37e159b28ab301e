-- ===== src/ReadPreference/Preferred.antt =====
-- Choosing with a preferred type: read preferences primaryPreferred and secondaryPreferred.
use mongo_hhvm_driver.Base.{
  ◌<◌, Bool, true, false, ◌||◌, List, ◌∷◌, ◌≡◌, refl, arith, ltb, Bool-cases, inl, inr,
}
use mongo_hhvm_driver.Types.{NodeType, node_bit, Connection}
use mongo_hhvm_driver.ReadPreference.Candidates.{is_primary}
use mongo_hhvm_driver.ReadPreference.Sort.{
  All, IsSorted, count, le_by, sort_primary_preferred, sort_secondary_preferred,
}
use mongo_hhvm_driver.ReadPreference.Order.{All-map, count_none}

abbrev pub is_secondary : NodeType → Bool
is_secondary NodeType.secondary = true
is_secondary _ = false

-- What the two read preferences collect: primaries and secondaries.
abbrev pub bears_data : Connection → Bool
bears_data con = is_primary con.connection_type || is_secondary con.connection_type

abbrev pub primary_at : Connection → Bool
primary_at con = is_primary con.connection_type

abbrev pub secondary_at : Connection → Bool
secondary_at con = is_secondary con.connection_type

-- Behind a first element that is no primary there is none.
no_primary_after :
    (s t : NodeType)
    → ltb (node_bit t) (node_bit s) ≡ false
    → (is_primary s || is_secondary s) ≡ true
    → is_primary s ≡ false
    → is_primary t ≡ false
unfolding node_bit
no_primary_after NodeType.secondary NodeType.primary le d h = cc
no_primary_after _ NodeType.primary le d h = cc
no_primary_after _ _ le d h = refl

-- Before a last element that is no primary there is none.
pub no_primary_before :
    (s t : NodeType)
    → ltb (node_bit s) (node_bit t) ≡ false
    → (is_primary t || is_secondary t) ≡ true
    → is_primary t ≡ false
    → is_primary s ≡ false
unfolding node_bit
no_primary_before NodeType.primary NodeType.secondary le d h = cc
no_primary_before NodeType.primary _ le d h = cc
no_primary_before _ _ le d h = refl

-- Behind a first element that is no secondary there is none.
no_secondary_after :
    (s t : NodeType)
    → ltb (node_bit s) (node_bit t) ≡ false
    → (is_primary s || is_secondary s) ≡ true
    → is_secondary s ≡ false
    → is_secondary t ≡ false
unfolding node_bit
no_secondary_after NodeType.primary NodeType.secondary le d h = cc
no_secondary_after _ NodeType.secondary le d h = cc
no_secondary_after _ _ le d h = refl

primary_order :
    (a b : Connection)
    → le_by sort_primary_preferred a b ≡ true
    → ltb (node_bit b.connection_type) (node_bit a.connection_type) ≡ false
unfolding sort_primary_preferred
primary_order a b h = ground arith

pub secondary_order :
    (a b : Connection)
    → le_by sort_secondary_preferred a b ≡ true
    → ltb (node_bit a.connection_type) (node_bit b.connection_type) ≡ false
unfolding sort_secondary_preferred
secondary_order a b h = ground arith

-- With a primary in it the sorted list begins with one.
pub primary_first :
    (first : Connection) (col : List Connection)
    → IsSorted sort_primary_preferred (first ∷ col)
    → bears_data first ≡ true
    → 0 < count primary_at (first ∷ col)
    → primary_at first ≡ true
primary_first first col s d h = elim (Bool-cases (primary_at first)) [
  | inl yes_primary ↦ yes_primary
  | inr other ↦
      let behind : All (λ c. primary_at c ≡ false) col =
        All-map
          (λ c le.
            no_primary_after first.connection_type c.connection_type (primary_order first c le) d
              other)
          col s.0 in
      absurd (omega (arith, count_none primary_at (first ∷ col) (other, behind)))
]

-- With a secondary in it the list sorted the other way begins with one.
pub secondary_first :
    (first : Connection) (col : List Connection)
    → IsSorted sort_secondary_preferred (first ∷ col)
    → bears_data first ≡ true
    → 0 < count secondary_at (first ∷ col)
    → secondary_at first ≡ true
secondary_first first col s d h = elim (Bool-cases (secondary_at first)) [
  | inl yes_secondary ↦ yes_secondary
  | inr other ↦
      let behind : All (λ c. secondary_at c ≡ false) col =
        All-map
          (λ c le.
            no_secondary_after first.connection_type c.connection_type (secondary_order first c le)
              d other)
          col s.0 in
      absurd (omega (arith, count_none secondary_at (first ∷ col) (other, behind)))
]
