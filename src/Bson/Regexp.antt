-- ===== src/Bson/Regexp.antt =====
-- `bson_next` on a regular expression, which holds two strings, the pattern and the options.
use mongo_hhvm_driver.Base.{
  drop_behind, ℕ, ◌+◌, some, ◌∷◌, ◌++◌, length, drop, ◌≡◌, refl, get_elem?-drop,
}
use mongo_hhvm_driver.CLib.{Bytes, Lacks}
use mongo_hhvm_driver.Bson.Reader.{Next, next, fixed_size, length_extra, next_other}
use mongo_hhvm_driver.Bson.Walk.{skip_lem, drop_one}

-- From an element with a regular expression `bson_next` leads to its options, not behind them: the
-- options are then read as the next element.
pub next_regexp :
    (buf name pattern options rest : Bytes) (at : ℕ)
    → Lacks 0 name
    → Lacks 0 pattern
    → drop at buf ≡ 11 ∷ (name ++ (0 ∷ (pattern ++ (0 ∷ (options ++ (0 ∷ rest))))))
    → (next buf at ≡ some (Next.to (at + 1 + length name + 1 + length pattern + 1)))
      × (drop (at + 1 + length name + 1 + length pattern + 1) buf ≡ options ++ (0 ∷ rest))
unfolding next fixed_size length_extra next_other
next_regexp buf name pattern options rest at n p e =
    let behind : Bytes = options ++ (0 ∷ rest) in
    let named : drop (at + 1) buf ≡ name ++ (0 ∷ (pattern ++ (0 ∷ behind))) =
      drop_one buf at 11 _ e in
    let value : ℕ = at + 1 + length name + 1 in
    let valued : drop value buf ≡ pattern ++ (0 ∷ behind) =
      drop_one buf (at + 1 + length name) 0 (pattern ++ (0 ∷ behind))
        (drop_behind buf name (0 ∷ (pattern ++ (0 ∷ behind))) (at + 1) named) in
    (
      rw (get_elem?-drop at buf 11 _ e) (
          rw (skip_lem buf name (pattern ++ (0 ∷ behind)) (at + 1) n named)
            (rw (skip_lem buf pattern behind value p valued) refl)),
      drop_one buf (value + length pattern) 0 behind
          (drop_behind buf pattern (0 ∷ behind) value valued),
    )
