-- ===== src/Matches/Selected.antt =====
-- `defaultSelectedKeys` and `smartDefaultSelectedKeys` of lib/matches.js: which matches are checked
-- at first. A set of keys is a list in insertion order.
use klew.Base.{
  ℕ, zero, suc, ◌≤◌, Bool, false, not, ◌&&◌, List, [], ◌∷◌, map, leb, ltb, length, take, keep, has,
  max, if◌then◌else◌, Str, codes, trim, is_empty, uniq, uniq-Unique, has-uniq, all_of_has,
  length-le_of_Unique, length-map, arith,
}
use klew.Matches.Rows.{Match, match_key}
use klew.Matches.Worst.{sort}

abbrev pub default_precheck : ℕ
default_precheck = 3

abbrev pub workload_root_kinds : List Str
workload_root_kinds =
    codes "Deployment"
    ∷ codes "StatefulSet"
    ∷ codes "DaemonSet"
    ∷ codes "CronJob"
    ∷ codes "Job"
    ∷ []

abbrev pub by_score : Match → Match → Bool
by_score a b = ltb b.score a.score

-- The keys of matches, as a set.
abbrev pub key_set : List Match → List Str
key_set ms = uniq (map (λ (m : Match). match_key m.ref) ms)

abbrev pub is_root : Match → Bool
is_root m = has workload_root_kinds m.ref.kind

abbrev pub or_best : ℕ → List Match → List Str → List Str
or_best limit matches [] = key_set (take limit (sort by_score matches))
or_best limit matches (k ∷ ks) = k ∷ ks

unfoldable pub default_selected_keys : ℕ → Bool → List Match → List Str
unfolding match_key sort uniq
default_selected_keys limit select_all matches =
    if select_all && not (leb (length matches) 0)
    then key_set matches
    else or_best limit matches (key_set (take limit (sort by_score (keep is_root matches))))

unfoldable pub smart_default_selected_keys : ℕ → Str → List Match → List Str
unfolding default_selected_keys
smart_default_selected_keys large_threshold query matches =
    let has_query = not (is_empty (trim query)) in
    if leb (length matches) 0
    then []
    else if leb (length matches) 5
    then key_set matches
    else if has_query && leb (length matches) large_threshold
    then key_set matches
    else default_selected_keys (if has_query then 5 else default_precheck) false matches

length-uniq-le : (xs : List Str) → length (uniq xs) ≤ length xs
length-uniq-le xs =
    length-le_of_Unique (uniq xs) xs (uniq-Unique xs)
      (all_of_has (uniq xs) xs (λ n h. ground (arith, has-uniq xs n)))

length-key_set-le : (ms : List Match) → length (key_set ms) ≤ length ms
length-key_set-le ms = omega (
  arith,
  length-uniq-le (map (λ (m : Match). match_key m.ref) ms),
  length-map ms (λ (m : Match). match_key m.ref),
)

length-take-le {ℓ} : {A : Type ℓ} (n : ℕ) (xs : List A) → length (take n xs) ≤ n
length-take-le zero xs = omega arith
length-take-le (suc n) [] = omega arith
length-take-le (suc n) (x ∷ xs) = omega (arith, length-take-le n xs)

or_best-le :
    (limit : ℕ) (ms : List Match) (ks : List Str)
    → length ks ≤ limit
    → length (or_best limit ms ks) ≤ limit
or_best-le limit ms [] h = omega (
  arith,
  length-key_set-le (take limit (sort by_score ms)),
  length-take-le limit (sort by_score ms),
)
or_best-le limit ms (k ∷ ks) h = h

-- No more keys are checked at first than the threshold, or five if that is more.
pub length-smart_default_selected_keys :
    (large_threshold : ℕ) (query : Str) (matches : List Match)
    → length (smart_default_selected_keys large_threshold query matches) ≤ max 5 large_threshold
unfolding smart_default_selected_keys default_selected_keys
length-smart_default_selected_keys t query ms =
    let all_keys = length-key_set-le ms in
    let roots = take 5 (sort by_score (keep is_root ms)) in
    let roots' = take 3 (sort by_score (keep is_root ms)) in
    let five = or_best-le 5 ms (key_set roots) (
      omega (arith, length-key_set-le roots, length-take-le 5 (sort by_score (keep is_root ms)))) in
    let three = or_best-le 3 ms (key_set roots') (
      omega
        (arith, length-key_set-le roots', length-take-le 3 (sort by_score (keep is_root ms)))) in
    ground arith
