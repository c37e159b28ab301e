-- ===== src/Parse/OptionList.antt =====
-- `mongo_parse_options` on a string that is written from names and values, as name=value&name=value.
use mongo_hhvm_driver.Base.{
  drop_behind, drop-add, ℕ, suc, ◌+◌, ◌-◌, ◌<◌, Bool, true, false, none, some, List, [], ◌∷◌, ◌++◌,
  ◌==◌, leb, if◌then◌else◌, length, drop, ◌≡◌, ◌≢◌, refl, arith, ap, ◌∙◌, length-drop,
  length-append,
}
use mongo_hhvm_driver.Base.Int.{pos, ltb_ℤ}
use mongo_hhvm_driver.CLib.{Bytes}
use mongo_hhvm_driver.Types.{Servers}
use mongo_hhvm_driver.Parse.Outcome.{Outcome}
use mongo_hhvm_driver.Parse.Store.{store_option}
use mongo_hhvm_driver.Parse.Slices.{slice_lem}
use mongo_hhvm_driver.Parse.OptionString.{
  process_option, Scan, scan_byte, scan_options, scan_start, parse_options, end_option, resume,
  stops_scan,
}

-- No `=`, no `;` and no `&`.
abbrev pub IsPlain : Bytes → Type 0
IsPlain [] = Unit
IsPlain (c ∷ cs) = ((c ≢ b'=') × ((c ≢ b';') × (c ≢ b'&'))) × IsPlain cs

pub record Setting : Type 0 where
  pub name : Bytes
  pub value : Bytes
  pub named : 0 < length name
  pub name_plain : IsPlain name
  pub value_plain : IsPlain value

abbrev pub print_settings : Setting → List Setting → Bytes
print_settings x [] = x.name ++ (b'=' ∷ (x.value ++ []))
print_settings x (next ∷ more) = x.name ++ (b'=' ∷ (x.value ++ (b'&' ∷ print_settings next more)))

-- Storing the settings one after the other, until one is rejected.
abbrev pub store_all : Servers → Setting → List Setting → Outcome
store_all servers x [] = store_option servers x.name x.value
store_all servers x (next ∷ more) =
    let outcome = store_option servers x.name x.value in
    let rest = store_all outcome.servers next more in
    if ltb_ℤ (pos 0) outcome.retval then outcome else rest

scan_byte-plain :
    (s : Bytes) (scan : Scan) (at c : ℕ)
    → c ≢ b'='
    → c ≢ b';'
    → c ≢ b'&'
    → scan_byte s scan at c ≡ scan
unfolding scan_byte
scan_byte-plain s scan at c h₁ h₂ h₃ = ground arith

scan_options-step :
    (s : Bytes) (scan next : Scan) (at c : ℕ) (cs : Bytes)
    → scan_byte s scan at c ≡ next
    → scan_options s scan at (c ∷ cs) ≡ resume next.failed (scan_options s next (at + 1) cs)
unfolding scan_options
scan_options-step s scan next at c cs e = ap (λ n. resume n.failed (scan_options s n (at + 1) cs)) e

scan_options-plain :
    (u : Bytes) (s : Bytes) (scan : Scan) (at : ℕ) (r : Bytes)
    → IsPlain u
    → scan.failed ≡ none
    → scan_options s scan at (u ++ r) ≡ scan_options s scan (at + length u) r
scan_options-plain [] s scan at r h f = let same : at + 0 ≡ at = omega arith in rw same refl
scan_options-plain (c ∷ cs) s scan at r h f =
    let more : at + suc (length cs) ≡ at + 1 + length cs = omega arith in
    scan_options-step s scan scan at c (cs ++ r) (scan_byte-plain s scan at c h.0.0 h.0.1.0 h.0.1.1)
    ∙ (ap (λ k. resume k (scan_options s scan (at + 1) (cs ++ r))) f
        ∙ rw more (scan_options-plain cs s scan (at + 1) r h.1 f))

-- The places where the loop leaves a name, and an option.
scan_options-equals :
    (s : Bytes) (scan : Scan) (at : ℕ) (r : Bytes)
    → scan.failed ≡ none
    → scan_options s scan at (b'=' ∷ r)
      ≡ scan_options s (record scan { value_start = some (at + 1) }) (at + 1) r
unfolding scan_byte
scan_options-equals s scan at r f =
    scan_options-step s scan (record scan { value_start = some (at + 1) }) at b'=' r refl
    ∙ (rw f refl)

scan_options-ampersand :
    (s : Bytes) (scan : Scan) (at : ℕ) (r : Bytes) (outcome : Outcome)
    → process_option scan.servers s scan.name_start scan.value_start at ≡ outcome
    → scan_options s scan at (b'&' ∷ r)
      ≡ resume (stops_scan outcome) (scan_options s (end_option outcome at) (at + 1) r)
unfolding scan_byte
scan_options-ampersand s scan at r outcome e =
    scan_options-step s scan (end_option outcome at) at b'&' r (ap (λ o. end_option o at) e)

-- At its end an option is stored with its name and its value.
process_option_lem :
    (servers : Servers) (s : Bytes) (at : ℕ) (name value r : Bytes)
    → 0 < length name
    → drop at s ≡ name ++ (b'=' ∷ (value ++ r))
    → process_option servers s at
        (some (at + length name + 1))
        (at + length name + 1 + length value)
      ≡ store_option servers name value
unfolding process_option
process_option_lem servers s at name value r named e =
    let behind : drop (at + length name + 1) s ≡ value ++ r =
      drop-add (at + length name) 1 s
      ∙ ap (drop 1) (drop_behind s name (b'=' ∷ (value ++ r)) at e) in
    let inside : leb (length s) at ≡ false =
      ground (arith, length-drop at s, ap length e, length-append name (b'=' ∷ (value ++ r))) in
    let apart : (at + length name + 1 == at + 1) ≡ false = ground arith in
    let before : at + length name + 1 - 1 ≡ at + length name = omega arith in
    rw (inside, process_option)
      (rw (apart, process_option)
        (rw before (
          rw (slice_lem s name (b'=' ∷ (value ++ r)) at e)
            (ap (store_option servers name) (slice_lem s value r (at + length name + 1) behind)))))

abbrev value_scan : Servers → ℕ → ℕ → Scan
value_scan servers at value = record (scan_start servers at) { value_start = some value }

-- The loop over one option, up to what stands behind its value.
scan_setting :
    (servers : Servers) (s : Bytes) (at : ℕ) (x : Setting) (r : Bytes)
    → scan_options s (scan_start servers at) at (x.name ++ (b'=' ∷ (x.value ++ r)))
      ≡ scan_options s
          (value_scan servers at (at + length x.name + 1))
          (at + length x.name + 1 + length x.value)
          r
scan_setting servers s at x r =
    scan_options-plain x.name s (scan_start servers at) at (b'=' ∷ (x.value ++ r)) x.name_plain refl
    ∙ (scan_options-equals s (scan_start servers at) (at + length x.name) (x.value ++ r) refl
        ∙ scan_options-plain x.value s _ (at + length x.name + 1) r x.value_plain refl)

-- Behind the `&`: the end of the loop, or its next option.
resume_lem :
    (outcome rest : Outcome) (s : Bytes) (at : ℕ) (r : Bytes)
    → scan_options s (scan_start outcome.servers (at + 1)) (at + 1) r ≡ rest
    → resume (stops_scan outcome) (scan_options s (end_option outcome at) (at + 1) r)
      ≡ (if ltb_ℤ (pos 0) outcome.retval then outcome else rest)
resume_lem outcome rest s at r e = go (ltb_ℤ (pos 0) outcome.retval)
  where
    go :
        (b : Bool)
        → resume (if b then some outcome else none) (
            scan_options s
              (record {
                servers = outcome.servers;
                name_start = at + 1;
                value_start = none;
                failed = if b then some outcome else none;
              })
              (at + 1)
              r)
          ≡ (if b then outcome else rest)
    go true = refl
    go false = e

scan_settings :
    (more : List Setting) (x : Setting) (servers : Servers) (s : Bytes) (at : ℕ)
    → drop at s ≡ print_settings x more
    → scan_options s (scan_start servers at) at (print_settings x more) ≡ store_all servers x more
unfolding scan_options
scan_settings [] x servers s at e =
    scan_setting servers s at x [] ∙ process_option_lem servers s at x.name x.value [] x.named e
scan_settings (next ∷ more) x servers s at e =
    let rest : Bytes = print_settings next more in
    let outcome : Outcome = store_option servers x.name x.value in
    let end : ℕ = at + length x.name + 1 + length x.value in
    let value_at : drop (at + length x.name + 1) s ≡ x.value ++ (b'&' ∷ rest) =
      drop-add (at + length x.name) 1 s
      ∙ ap (drop 1) (drop_behind s x.name (b'=' ∷ (x.value ++ (b'&' ∷ rest))) at e) in
    let next_at : drop (end + 1) s ≡ rest =
      drop-add end 1 s
      ∙ ap (drop 1) (drop_behind s x.value (b'&' ∷ rest) (at + length x.name + 1) value_at) in
    scan_setting servers s at x (b'&' ∷ rest)
    ∙ (scan_options-ampersand s (value_scan servers at (at + length x.name + 1)) end rest outcome
          (process_option_lem servers s at x.name x.value (b'&' ∷ rest) x.named e)
        ∙ resume_lem outcome (store_all outcome.servers next more) s end rest
            (scan_settings more next outcome.servers s (end + 1) next_at))

print_settings-nonempty : (x : Setting) (more : List Setting) → 0 < length (print_settings x more)
print_settings-nonempty x [] = omega (arith, length-append x.name (b'=' ∷ (x.value ++ [])))
print_settings-nonempty x (next ∷ more) =
    omega (arith, length-append x.name (b'=' ∷ (x.value ++ (b'&' ∷ print_settings next more))))

parse_options-nonempty :
    (servers : Servers) (s : Bytes)
    → 0 < length s
    → parse_options servers s ≡ some (scan_options s (scan_start servers 0) 0 s)
unfolding parse_options
parse_options-nonempty servers [] h = absurd (omega arith)
parse_options-nonempty servers (c ∷ cs) h = refl

-- An option string that is written from settings, name=value with a `&` between each two, stores the
-- settings in their order, up to the first that is rejected. A name is not empty, and names and
-- values hold no `=`, `;` and `&`.
pub parse_options-print_settings :
    (servers : Servers) (x : Setting) (more : List Setting)
    → parse_options servers (print_settings x more) ≡ some (store_all servers x more)
parse_options-print_settings servers x more =
    parse_options-nonempty servers (print_settings x more) (print_settings-nonempty x more)
    ∙ ap some (scan_settings more x servers (print_settings x more) 0 refl)
