-- ===== src/Parse/KeepsEach.antt =====
-- What the single options keep.
use mongo_hhvm_driver.Base.{
  Bool-cases, Option-cases, Bool, true, false, ◌||◌, List, [], ◌∷◌, ◌≡◌, inl, inr, refl,
  if◌then◌else◌,
}
use mongo_hhvm_driver.Base.Int.{pos, ltb_ℤ, eqb_ℤ, to_int}
use mongo_hhvm_driver.CLib.{Bytes, str_eq, str_case_eq, atoi, codes, split_at, strtol}
use mongo_hhvm_driver.Types.{Tagset, Servers}
use mongo_hhvm_driver.Parse.Outcome.{Outcome}
use mongo_hhvm_driver.Parse.Tags.{
  behind_commas, no_separator, parse_read_preference_tags, tags_from,
}
use mongo_hhvm_driver.Parse.Options.{
  store_auth_mechanism, store_read_preference, store_replica_set, store_slave_okay, store_ssl,
  store_w, unknown_option, mechanism_of, rp_type_of, is_yes, has_preference, set_mechanism,
  set_repl_set_name,
}
use mongo_hhvm_driver.Parse.Keeps.{
  map-address, Keeps, done-Keeps, discouraged-Keeps, logic_error-Keeps, each-Keeps,
}

tags-Keeps :
    (servers : Servers) (later : List Bytes) (tagset : Tagset) (start : Bytes)
    → Keeps servers (tags_from servers tagset start later)
unfolding tags_from
tags-Keeps servers [] tagset start = elim (Option-cases (split_at b':' start)) [
  | inl e ↦ rw (e, tags_from) (logic_error-Keeps servers (no_separator start))
  | inr (_, e) ↦ rw (e, tags_from) (done-Keeps servers _ refl (λ k. k))
]
tags-Keeps servers (next ∷ later) tagset start = elim (Option-cases (split_at b':' start)) [
  | inl e ↦ rw (e, tags_from) (logic_error-Keeps servers (no_separator start))
  | inr ((name, value), e) ↦ rw (e, tags_from) (tags-Keeps servers later _ next)
]

pub parse_tags-Keeps :
    (servers : Servers) (value : Bytes) → Keeps servers (parse_read_preference_tags servers value)
unfolding parse_read_preference_tags
parse_tags-Keeps servers [] = done-Keeps servers _ refl (λ k. k)
parse_tags-Keeps servers (c ∷ cs) = tags-Keeps servers (behind_commas (c ∷ cs)) [] (c ∷ cs)

pub mechanism-Keeps :
    (servers : Servers) (value : Bytes) → Keeps servers (store_auth_mechanism servers value)
unfolding store_auth_mechanism
mechanism-Keeps servers value = elim (Option-cases (mechanism_of value)) [
  | inl e ↦ rw (e, store_auth_mechanism) (logic_error-Keeps servers _)
  | inr (m, e) ↦ rw (e, store_auth_mechanism) (each-Keeps servers (set_mechanism m) (λ def. refl))
]

pub read_preference-Keeps :
    (servers : Servers) (value : Bytes) → Keeps servers (store_read_preference servers value)
unfolding store_read_preference
read_preference-Keeps servers value = elim (Option-cases (rp_type_of value)) [
  | inl e ↦ rw (e, store_read_preference) (logic_error-Keeps servers _)
  | inr (m, e) ↦ rw (e, store_read_preference) (done-Keeps servers _ refl (λ k. k))
]

pub replica_set-Keeps :
    (servers : Servers) (value : Bytes) → Keeps servers (store_replica_set servers value)
unfolding store_replica_set
replica_set-Keeps servers [] = done-Keeps servers _ refl (λ k. k)
replica_set-Keeps servers (c ∷ cs) = elim (Bool-cases (str_eq (c ∷ cs) (codes "1"))) [
  | inl e ↦ rw e (done-Keeps servers _ refl (λ k. k))
  | inr e ↦ rw e (
      done-Keeps servers _ (map-address (set_repl_set_name (c ∷ cs)) servers.server (λ def. refl))
        (λ k. k))
]

pub slave_okay-Keeps :
    (servers : Servers) (value : Bytes) → Keeps servers (store_slave_okay servers value)
unfolding store_slave_okay
slave_okay-Keeps servers value = elim (Bool-cases (is_yes value)) [
  | inr e ↦ rw e (discouraged-Keeps servers servers refl (λ k. k))
  | inl e ↦ rw e (elim (Bool-cases (has_preference servers.read_pref)) [
    | inl f ↦ rw f (logic_error-Keeps servers _)
    | inr f ↦ rw f (discouraged-Keeps servers _ refl (λ k. k))
  ])
]

either-Keeps :
    (servers : Servers) (b : Bool) (x y : Outcome)
    → Keeps servers x
    → Keeps servers y
    → Keeps servers (if b then x else y)
either-Keeps servers true x y h k = h
either-Keeps servers false x y h k = k

pub ssl-Keeps : (servers : Servers) (value : Bytes) → Keeps servers (store_ssl servers value)
unfolding store_ssl
ssl-Keeps servers value =
    either-Keeps servers (is_yes value) _ _ (done-Keeps servers _ refl (λ k. k)) (
      either-Keeps servers (str_case_eq value (codes "false") || str_eq value (codes "0")) _ _
        (done-Keeps servers _ refl (λ k. k))
        (either-Keeps servers (str_case_eq value (codes "prefer") || eqb_ℤ (atoi value) (pos 2)) _ _
          (logic_error-Keeps servers _) (logic_error-Keeps servers _)))

pub w-Keeps : (servers : Servers) (value : Bytes) → Keeps servers (store_w servers value)
unfolding store_w
w-Keeps servers value = go (strtol value).1 refl
  where
    go : (rest : Bytes) → (strtol value).1 ≡ rest → Keeps servers (store_w servers value)
    go [] e =
        rw (e, store_w)
          (either-Keeps servers (ltb_ℤ (to_int (strtol value).0) (pos 0)) _ _
            (record {
              same_addresses = refl;
              reported = refl;
              restored = λ f. refl;
              concern = λ k. inl refl;
            })
            (done-Keeps servers _ refl (λ k. inl refl)))
    go (c ∷ cs) e = rw (e, store_w) (done-Keeps servers _ refl (λ k. inr refl))

pub unknown-Keeps :
    (servers : Servers) (name value : Bytes) → Keeps servers (unknown_option servers name value)
unfolding unknown_option
unknown-Keeps servers name value = record {
  same_addresses = refl;
  reported = refl;
  restored = λ e. refl;
  concern = λ k. k;
}
