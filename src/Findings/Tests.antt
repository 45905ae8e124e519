-- ===== src/Findings/Tests.antt =====
-- The ranking of findings on concrete candidates.
use klew.Base.{
  ◌&&◌, ◌≡◌, ◌⊎◌, refl, Bool, true, List, [], ◌∷◌, map, Str, codes, str_eq, has, leb, length, trim,
  trim_start, is_space, to_lower_case, includes, starts_with, arith,
}
use klew.Findings.{
  Finding, severity_rank, reason_of, is_routine, finding_severity, is_key, leads, place_finding,
  sort_findings, rank_findings,
}
use klew.Findings.Ranked.{count_of}
use klew.Findings.Ordered.{Ordered, matters, rank_findings-Ordered}

program : Unit {0}
unfolding str_eq has trim trim_start is_space to_lower_case includes starts_with severity_rank
    reason_of is_routine finding_severity is_key leads place_finding sort_findings rank_findings
program = tt

-- An order of titles: the shorter first.
abbrev by_length : Str → Str → Bool
by_length a b = leb (length a) (length b)

by_length_total : (a b : Str) → (by_length a b ≡ true) ⊎ (by_length b a ≡ true)
by_length_total a b = ground arith

by_length_trans : (a b c : Str) → by_length a b ≡ true → by_length b c ≡ true → by_length a c ≡ true
by_length_trans a b c h i = ground arith

abbrev pulled : Finding
pulled = record {
  reason = codes "Pulled";
  title = codes "image";
  severity = codes "critical";
  last_seen = 9;
  count = 1;
}

abbrev probe : Finding
probe = record {
  reason = codes "Killing";
  title = codes "Liveness probe failed";
  severity = codes "Warning";
  last_seen = 5;
  count = 2;
}

abbrev crash : Finding
crash = record {
  reason = codes "BackOff";
  title = codes "crash";
  severity = codes "high";
  last_seen = 1;
  count = 1;
}

abbrev old_probe : Finding
old_probe = record probe { last_seen = 4; count = 8 }

abbrev candidates : List Finding
candidates = pulled ∷ old_probe ∷ probe ∷ crash ∷ []

-- The routine finding goes, and severity comes before time, and time before volume.
ranking : rank_findings by_length candidates ≡ crash ∷ probe ∷ old_probe ∷ []
unfolding program
ranking = refl

reasons :
    map reason_of (codes "[Pulled] Container" ∷ codes " BackOff x" ∷ codes "Ab1" ∷ codes "low" ∷ [])
    ≡ codes "Pulled" ∷ codes "BackOff" ∷ [] ∷ [] ∷ []
unfolding program
reasons = refl

rank_findings-Ordered_example :
    Ordered by_length (rank_findings by_length candidates)
    × (count_of (λ f. leb 2 f.count) (rank_findings by_length candidates)
        ≡ count_of (λ f. matters f && leb 2 f.count) candidates)
rank_findings-Ordered_example =
    rank_findings-Ordered by_length by_length_total by_length_trans candidates (λ f. leb 2 f.count)
