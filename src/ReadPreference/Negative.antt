-- ===== src/ReadPreference/Negative.antt =====
-- A negative `secondaryAcceptableLatencyMS`, which the option parser accepts, leaves no server.
use mongo_hhvm_driver.Base.{
  ◌>>=◌, ℕ, Bool, true, false, none, List, [], ◌∷◌, ◌≡◌, refl, arith, length, select, ◌∙◌,
}
use mongo_hhvm_driver.Base.Int.{ℤ, negsuc, ◌+ℤ◌, leb_ℤ, IsInt, to_int_lem}
use mongo_hhvm_driver.Types.{RpType, Connection}
use mongo_hhvm_driver.ReadPreference.Sort.{All, IsSorted, Qsort, le_by, sort_any, sort_any-IsOrder}
use mongo_hhvm_driver.ReadPreference.Order.{All-map}
use mongo_hhvm_driver.ReadPreference.Pick.{is_near, near_first, random_element, choose_server}
use mongo_hhvm_driver.ReadPreference.Nearest.{
  IsByPing, AllInRange, sorted_range, choose_by_ping, sort_any_refl,
}

not_near :
    (first con : Connection) (k : ℕ)
    → IsInt (first.ping_ms +ℤ negsuc k)
    → le_by sort_any first con ≡ true
    → is_near first.ping_ms (negsuc k) con ≡ false
unfolding sort_any
not_near first con k h le =
    rw (to_int_lem (first.ping_ms +ℤ negsuc k) h)
      (beyond first.ping_ms con.ping_ms k (ground arith))
  where
    beyond : (f c : ℤ) (k : ℕ) → leb_ℤ f c ≡ true → leb_ℤ c (f +ℤ negsuc k) ≡ false
    beyond f c k h = ground arith

select-none :
    (p : Connection → Bool) (col : List Connection) → All (λ c. p c ≡ false) col → select p col ≡ []
select-none p [] h = refl
select-none p (c ∷ col) h = rw h.0 (select-none p col h.1)

nothing_near :
    (rand : ℕ) (col : List Connection) (k : ℕ)
    → IsSorted sort_any col
    → AllInRange col (negsuc k)
    → (near_first col (negsuc k) >>= λ near. random_element rand near (length near)) ≡ none
unfolding near_first random_element
nothing_near rand [] k s h = refl
nothing_near rand (first ∷ col) k s h =
    rw
      (select-none (is_near first.ping_ms (negsuc k)) (first ∷ col) (
        not_near first first k h.0 (sort_any_refl first),
        All-map (λ con le. not_near first con k h.0 le) col s.0,
      ))
      refl

-- With a negative latency and a read preference primary, secondary or nearest no server is chosen:
-- none is near, not even the nearest, and the remainder by the number of near servers is undefined.
pub choose_server_negative :
    (qsort : Qsort Connection) (rand : ℕ) (col : List Connection) (k : ℕ) (rp : RpType)
    → IsByPing rp
    → AllInRange col (negsuc k)
    → choose_server qsort rand col (negsuc k) rp ≡ none
choose_server_negative qsort rand col k rp by_ping range =
    choose_by_ping qsort rand col (negsuc k) rp by_ping
    ∙ nothing_near rand (qsort.sort sort_any col) k (qsort.in_order sort_any col sort_any-IsOrder)
        (sorted_range qsort sort_any col (negsuc k) range)
