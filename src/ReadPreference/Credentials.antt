-- ===== src/ReadPreference/Credentials.antt =====
-- The comparison with the first server's credentials, and the connection without any.
use mongo_hhvm_driver.Base.{
  >>=-none, >>=-all_none, ◌>>=◌, ℕ, zero, suc, ◌^◌, ◌<◌, none, some, List, [], ◌∷◌, ◌≡◌, refl,
  if◌then◌else◌, ap, ◌∙◌,
}
use mongo_hhvm_driver.Types.{Connection, ServerDef}
use mongo_hhvm_driver.Hash.Create.{Md5, Credentials, credentials, create_hash}
use mongo_hhvm_driver.Hash.Split.{split_hash}
use mongo_hhvm_driver.Hash.RoundTrip.{IsSplittable, split_hash-create_hash}
use mongo_hhvm_driver.ReadPreference.Candidates.{
  filter_by_wanted, filter_candidates_by_credentials, same_credentials,
}
use mongo_hhvm_driver.ReadPreference.Order.{At}

module _ (md5 : Md5) (pid : ℕ) where
  wanted-none :
      (wanted : Credentials) (con : Connection) (p : ℕ) (def : ServerDef)
      → p < 2 ^ 31
      → IsSplittable def
      → credentials def ≡ none
      → con.hash ≡ create_hash md5 p def
      → (split_hash con.hash >>= λ parts. same_credentials md5 pid wanted parts) ≡ none
  unfolding same_credentials
  wanted-none wanted con p def h s c e =
      rw (ap split_hash e ∙ split_hash-create_hash md5 p h def s) (rw c refl)

  filter_by_wanted-none :
      (wanted : Credentials) (col : List Connection) (con : Connection)
      → (split_hash con.hash >>= λ parts. same_credentials md5 pid wanted parts) ≡ none
      → At col con
      → filter_by_wanted md5 pid (some wanted) col ≡ none
  unfolding filter_by_wanted
  filter_by_wanted-none wanted [] con e (i, f) = cc
  filter_by_wanted-none wanted (c ∷ col) con e (zero, f) =
      let same : c ≡ con = cc in
      >>=-all_none (filter_by_wanted md5 pid (some wanted) col) _ λ filtered.
        >>=-none (split_hash c.hash) (same_credentials md5 pid wanted)
          (λ parts keep. some (if keep then c ∷ filtered else filtered)) (rw same e)
  filter_by_wanted-none wanted (c ∷ col) con e (suc i, f) =
      rw (filter_by_wanted-none wanted col con e (i, f)) refl

  -- If the first server of the list has credentials, and one of the candidates is a connection whose
  -- definition has none (its strings free of separators, its process id below 2 ^ 31), a NULL
  -- database name is compared: the filter has no defined result.
  pub credentials_compare_null :
      (col : List Connection) (server : ServerDef) (servers : List ServerDef) (wanted : Credentials)
      (con : Connection) (p : ℕ) (def : ServerDef)
      → credentials server ≡ some wanted
      → At col con
      → con.hash ≡ create_hash md5 p def
      → credentials def ≡ none
      → IsSplittable def
      → p < 2 ^ 31
      → filter_candidates_by_credentials md5 pid col (server ∷ servers) ≡ none
  unfolding filter_candidates_by_credentials
  credentials_compare_null [] server servers wanted con p def w (i, f) e c s h = cc
  credentials_compare_null (x ∷ col) server servers wanted con p def w at e c s h =
      rw w (filter_by_wanted-none wanted (x ∷ col) con (wanted-none wanted con p def h s c e) at)
