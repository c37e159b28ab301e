-- ===== src/ReadPreference/Nearest.antt =====
-- Choosing by ping time alone: read preferences primary, secondary and nearest.
use mongo_hhvm_driver.Base.{
  ltb, leb, ◌&&◌, ◌^◌, ◌>>=◌, ℕ, ◌%◌, ◌≤◌, ◌<◌, Bool, true, some, List, ◌∷◌, ◌≡◌, refl, arith,
  length, get_elem?, select,
}
use mongo_hhvm_driver.Base.Int.{ℤ, pos, ◌+ℤ◌, leb_ℤ, IsInt, to_int_lem, pos_part, neg_part}
use mongo_hhvm_driver.Types.{RpType, Connection}
use mongo_hhvm_driver.ReadPreference.Sort.{
  Compare, All, Qsort, le_by, sort_any, sort_servers, sort_function,
}
use mongo_hhvm_driver.ReadPreference.Order.{All-map, get_elem?-total, All-sort}
use mongo_hhvm_driver.ReadPreference.Pick.{
  is_near, near_first, select_nearest_servers, random_element, pick_server_from_set, choose_server,
}

-- The read preferences whose candidates are ordered by ping time alone.
abbrev pub IsByPing : RpType → Type 0
IsByPing RpType.primary = Unit
IsByPing RpType.secondary = Unit
IsByPing RpType.nearest = Unit
IsByPing _ = ⊥

pub random_element-At :
    (rand : ℕ) (col : List Connection) (n : ℕ)
    → 0 < n
    → n ≤ length col
    → (con : Connection) × (random_element rand col n ≡ some con)
      × (get_elem? col (rand % n) ≡ some con)
unfolding random_element
random_element-At rand col n h k =
    let (con, e) = get_elem?-total col (rand % n) (omega arith) in (con, ground arith, e)

ping_le : (p : ℤ) (l : ℕ) → leb_ℤ p (p +ℤ pos l) ≡ true
ping_le p l = ground arith

near_self :
    (con : Connection) (l : ℕ)
    → IsInt (con.ping_ms +ℤ pos l)
    → is_near con.ping_ms (pos l) con ≡ true
near_self con l h = rw (to_int_lem (con.ping_ms +ℤ pos l) h) (ping_le con.ping_ms l)

-- The first element is near itself, so the selection begins with it.
pub near_first-cons :
    (con : Connection) (col : List Connection) (l : ℕ)
    → IsInt (con.ping_ms +ℤ pos l)
    → near_first (con ∷ col) (pos l) ≡ some (con ∷ select (is_near con.ping_ms (pos l)) col)
unfolding near_first
near_first-cons con col l h = rw (near_self con l h)

pub choose_by_ping :
    (qsort : Qsort Connection) (rand : ℕ) (col : List Connection) (latency : ℤ) (rp : RpType)
    → IsByPing rp
    → choose_server qsort rand col latency rp ≡ (
        near_first (qsort.sort sort_any col) latency >>= λ near.
        random_element rand near (length near))
unfolding choose_server sort_servers sort_function select_nearest_servers pick_server_from_set
choose_by_ping qsort rand col latency RpType.primary h = refl
choose_by_ping qsort rand col latency RpType.secondary h = refl
choose_by_ping qsort rand col latency RpType.nearest h = refl
choose_by_ping qsort rand col latency _ h = absurd h

pub sort_any_refl : (con : Connection) → le_by sort_any con con ≡ true
unfolding sort_any
sort_any_refl con = ground arith

-- The server that is chosen: it is one of the candidates, and no candidate is nearer by more than
-- the latency.
pub record IsNearest (col : List Connection) (latency : ℕ) (con : Connection) : Type 0 where
  pub candidate : (p : Connection → Bool) → All (λ c. p c ≡ true) col → p con ≡ true
  pub near : All (λ other. leb_ℤ con.ping_ms (other.ping_ms +ℤ pos latency) ≡ true) col

abbrev is_int : ℤ → Bool
is_int z = ltb (pos_part z) (2 ^ 31) && leb (neg_part z) (2 ^ 31)

is_int→IsInt : (z : ℤ) → is_int z ≡ true → IsInt z
is_int→IsInt z h = ground arith

IsInt→is_int : (z : ℤ) → IsInt z → is_int z ≡ true
IsInt→is_int z h = ground arith

-- No ping time overflows when the latency is added to it.
abbrev pub AllInRange : List Connection → ℤ → Type 0
AllInRange col latency = All (λ con. IsInt (con.ping_ms +ℤ latency)) col

module _ (qsort : Qsort Connection) (cmp : Compare Connection) (col : List Connection) (latency : ℤ)
    (range : AllInRange col latency) where
  pub sorted_range : AllInRange (qsort.sort cmp col) latency
  sorted_range =
      All-map (λ con. is_int→IsInt (con.ping_ms +ℤ latency)) (qsort.sort cmp col)
        (All-sort qsort cmp (λ con. is_int (con.ping_ms +ℤ latency)) col
          (All-map (λ con. IsInt→is_int (con.ping_ms +ℤ latency)) col range))
