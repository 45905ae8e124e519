-- ===== src/Findings.antt =====
-- lib/findingRanking.js: which findings are shown first.
pub mod Ranked
pub mod Ordered
mod Tests
use klew.Base.{
  ℕ, ltb, leb, ◌==◌, Bool, true, false, not, ◌&&◌, ◌||◌, List, [], ◌∷◌, ◌++◌, Option, none, some,
  if◌then◌else◌, Str, codes, str_eq, is_empty, has, any, keep, length, trim, to_lower_case,
  includes, ◌or◌,
}

abbrev pub failure_reasons : List (Str × Str)
failure_reasons =
    (codes "OOMKilled", codes "critical")
    ∷ (codes "OOMKilling", codes "critical")
    ∷ (codes "FailedScheduling", codes "critical")
    ∷ (codes "FailedMount", codes "critical")
    ∷ (codes "FailedAttachVolume", codes "critical")
    ∷ (codes "ErrImagePull", codes "critical")
    ∷ (codes "ImagePullBackOff", codes "critical")
    ∷ (codes "CrashLoopBackOff", codes "critical")
    ∷ (codes "Evicted", codes "critical")
    ∷ (codes "NodeNotReady", codes "critical")
    ∷ (codes "FailedCreate", codes "high")
    ∷ (codes "FailedCreatePodSandBox", codes "high")
    ∷ (codes "AdmissionDenied", codes "high")
    ∷ (codes "BackOff", codes "high")
    ∷ (codes "Unhealthy", codes "high")
    ∷ (codes "Failed", codes "high")
    ∷ (codes "FailedKillPod", codes "high")
    ∷ (codes "ProbeWarning", codes "warning")
    ∷ (codes "FailedSync", codes "warning")
    ∷ (codes "NetworkNotReady", codes "warning")
    ∷ []

abbrev pub routine_reasons : List Str
routine_reasons =
    codes "Pulled"
    ∷ codes "Pulling"
    ∷ codes "Scheduled"
    ∷ codes "Created"
    ∷ codes "Started"
    ∷ codes "SuccessfulCreate"
    ∷ codes "SuccessfulDelete"
    ∷ codes "ScalingReplicaSet"
    ∷ codes "Completed"
    ∷ codes "Killing"
    ∷ codes "SawCompletedJob"
    ∷ codes "SuccessfulRescale"
    ∷ codes "NoPods"
    ∷ codes "SandboxChanged"
    ∷ []

abbrev pub severity_ranks : List (Str × ℕ)
severity_ranks =
    (codes "critical", 5)
    ∷ (codes "fatal", 5)
    ∷ (codes "error", 4)
    ∷ (codes "high", 4)
    ∷ (codes "warning", 3)
    ∷ (codes "warn", 3)
    ∷ (codes "degraded", 3)
    ∷ (codes "medium", 2)
    ∷ (codes "info", 1)
    ∷ (codes "low", 1)
    ∷ []

abbrev pub rank_at : List (Str × ℕ) → Str → ℕ
rank_at [] s = 0
rank_at ((k, r) ∷ rs) s = if str_eq k s then r else rank_at rs s

unfoldable pub severity_rank : Str → ℕ
severity_rank sev = rank_at severity_ranks (to_lower_case sev)

abbrev pub is_upper : ℕ → Bool
is_upper c = leb 65 c && leb c 90

abbrev pub is_letter : ℕ → Bool
is_letter c = is_upper c || leb 97 c && leb c 122

-- `[A-Za-z]*` at the start, and what follows
abbrev pub letters : Str → Str × Str
letters [] = ([], [])
letters (c ∷ s) = let (w, rest) = letters s in if is_letter c then (c ∷ w, rest) else ([], c ∷ s)

-- a digit or `_`: after a letter there is no word boundary before it
abbrev pub goes_on : Str → Bool
goes_on [] = false
goes_on (c ∷ s) = leb 48 c && leb c 57 || c == 95

abbrev pub starts_bracket : Str → Bool
starts_bracket [] = false
starts_bracket (c ∷ s) = c == 93

-- `/^\[([A-Za-z]+)\]/`
abbrev pub bracketed : Str → Str
bracketed [] = []
bracketed (c ∷ s) = let (w, rest) = letters s in if c == 91 && starts_bracket rest then w else []

-- `/^([A-Z][A-Za-z]+)(\b|$)/`
abbrev pub leading_word : Str → Str
leading_word [] = []
leading_word (c ∷ s) =
    let (w, rest) = letters s in
    if is_upper c && not (is_empty w) && not (goes_on rest) then c ∷ w else []

unfoldable pub reason_of : Str → Str
reason_of text = let s = trim text in bracketed s or leading_word s

-- `/liveness|readiness|startup probe|failed|evict|oom/i`
abbrev pub failure_words : List Str
failure_words =
    codes "liveness"
    ∷ codes "readiness"
    ∷ codes "startup probe"
    ∷ codes "failed"
    ∷ codes "evict"
    ∷ codes "oom"
    ∷ []

unfoldable pub is_routine : Str → Str → Bool
is_routine reason text =
    has routine_reasons reason
    && not (str_eq reason (codes "Killing") && any (includes (to_lower_case text)) failure_words)

abbrev pub reason_severity : List (Str × Str) → Str → Str
reason_severity [] reason = []
reason_severity ((k, s) ∷ rs) reason = if str_eq k reason then s else reason_severity rs reason

unfoldable pub finding_severity : Str → Str → Str
finding_severity reason fallback =
    reason_severity failure_reasons reason or (fallback or codes "info")

-- A missing time or count is 0.
pub record Finding : Type 0 where
  pub reason : Str
  pub title : Str
  pub severity : Str
  pub last_seen : ℕ
  pub count : ℕ

-- The two filters of `rankFindings`.
unfoldable pub is_key : Finding → Bool
is_key f =
    not (is_routine f.reason f.title)
    && leb (severity_rank (codes "warning")) (severity_rank f.severity)

-- `locale a b` is `a.localeCompare(b) <= 0`.
module _ (locale : Str → Str → Bool) where
  -- The comparison of `rankFindings` does not put `b` before `a`.
  unfoldable pub leads : Finding → Finding → Bool
  leads a b =
      if not (severity_rank b.severity == severity_rank a.severity)
      then ltb (severity_rank b.severity) (severity_rank a.severity)
      else if not (b.last_seen == a.last_seen)
      then ltb b.last_seen a.last_seen
      else if not (b.count == a.count)
      then ltb b.count a.count
      else locale a.title b.title

  unfoldable pub place_finding : Finding → List Finding → List Finding
  unfolding leads
  place_finding f [] = f ∷ []
  place_finding f (g ∷ gs) = if leads f g then f ∷ g ∷ gs else g ∷ place_finding f gs

  -- `.sort(...)`, which is stable
  unfoldable pub sort_findings : List Finding → List Finding
  unfolding place_finding
  sort_findings [] = []
  sort_findings (f ∷ fs) = place_finding f (sort_findings fs)

  unfoldable pub rank_findings : List Finding → List Finding
  unfolding sort_findings is_key
  rank_findings candidates = sort_findings (keep is_key candidates)

-- The times are those of the samples, `none` where it is not finite.
unfoldable pub template_last_seen : ℕ → List (Option ℕ) → ℕ
template_last_seen max [] = max
template_last_seen max (none ∷ ts) = template_last_seen max ts
template_last_seen max (some t ∷ ts) = template_last_seen (if ltb max t then t else max) ts
