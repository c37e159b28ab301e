-- ===== src/Tests/Buffers.antt =====
-- The growing string and the growing array at small contents.
use mongo_hhvm_driver.Base.{ℕ, ◌<◌, some, [], ◌∷◌, ◌≡◌, refl, arith, inl}
use mongo_hhvm_driver.CLib.{codes}
use mongo_hhvm_driver.Str.{Str, init, addl}
use mongo_hhvm_driver.Str.Append.{Holds, addl-Holds}
use mongo_hhvm_driver.Collection.{Collection, init_collection, add}
use mongo_hhvm_driver.Collection.Laws.{Represents, init_collection-Represents, add-Represents}

init-Holds : Holds init []
init-Holds = record {
  used = refl;
  allocated = refl;
  front = refl;
  room = omega arith;
  lean = omega arith;
  terminated = inl refl;
}

addl-Holds_example :
    (xs : Str) × (addl init (codes "ping") ≡ some xs) × Holds xs (codes "ping") × (xs.l < xs.a)
addl-Holds_example = addl-Holds init [] (codes "ping") init-Holds (omega arith)

add-Represents_example :
    (c : Collection ℕ) × (add init_collection 7 ≡ some c) × Represents c (7 ∷ [])
add-Represents_example =
    add-Represents init_collection [] 7 init_collection-Represents (omega arith)
