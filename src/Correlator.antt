-- ===== src/Correlator.antt =====
-- modules/intelligence/correlator.py. Hosts and addresses are texts; the host of a URL is read by the
-- parameter `url_host`, which stands for urlsplit(url).hostname, and a signal's text by its parts.
pub mod Counted
pub mod Ranked
pub mod Live
use exact_surface.Prelude.{
  ℕ, zero, suc, ◌+◌, min, String, Bool, true, false, not, ◌&&◌, ◌||◌, Option, none, some, List, [],
  ◌∷◌, ◌++◌, any, leb, ltb, nat_beq, if◌then◌else◌, ◌==◌, Dict, get, put, keys, contains, insert,
  string_eq, text_eq, nat_eq,
}
use exact_surface.Scope.Host.{Text, lower, normal}
use exact_surface.Severity.{Severity, info, low, medium, high, critical, rank, parse}

-- `_SENSITIVE_PORTS`
abbrev pub sensitive_ports : List ℕ
sensitive_ports = 21 ∷ 22 ∷ 23 ∷ 445 ∷ 1433 ∷ 3306 ∷ 3389 ∷ 5432 ∷ 5900 ∷ 6379 ∷ 9200 ∷ 27017 ∷ []

-- `_SUPPRESSED_STATES`
abbrev pub suppressed_states : List String
suppressed_states = "false_positive" ∷ "resolved" ∷ []

-- `_SEVERITY_WEIGHT`
unfoldable pub severity_weight : Severity → ℕ
severity_weight critical = 40
severity_weight high = 25
severity_weight medium = 10
severity_weight low = 4
severity_weight info = 1

-- The text of a signal.
pub data Signal : Type 0 where
  of_finding of_secret of_leak : String → Signal
  of_cve : String → (on_kev : Bool) → Signal
  of_port : ℕ → Signal
  ephemeral_env : Signal

pub record CorrelatedIssue : Type 0 where
  pub host : Text
  pub risk_score : ℕ
  pub highest_severity : Severity
  pub is_chain : Bool
  pub signals : List Signal

-- The fields that are read of the stored documents; a text that is missing is empty.
pub record Asset : Type 0 where
  pub hostname : Text
  pub resolved_ips : List Text
  pub fingerprint : String
  pub is_ephemeral : Bool

pub record Found : Type 0 where
  pub state : String
  pub severity : String
  pub location : Text
  pub check_id : String

pub record Secret : Type 0 where
  pub severity : String
  pub source_locator : Text
  pub kind : String

pub record Leak : Type 0 where
  pub url : Text
  pub kind : String

pub record CveMatch : Type 0 where
  pub asset_fingerprint : String
  pub on_kev : Bool
  pub confidence : String
  pub severity : String
  pub cve_id : String

pub record Port : Type 0 where
  pub port : ℕ
  pub ip : Text

-- The four dicts that `add` writes.
pub record Tally : Type 0 where
  pub score : Dict Text ℕ
  pub signals : Dict Text (List Signal)
  pub top_sev : Dict Text Severity
  pub high_signal_count : Dict Text ℕ

abbrev pub is_blank : Text → Bool
is_blank [] = true
is_blank (c ∷ s) = false

-- d.get(k, default)
abbrev pub get_or : {V : Type 0} → V → Text → Dict Text V → V
get_or v k d = elim (get k d) [ none ↦ v | some w ↦ w ]

unfoldable pub sev_of : String → Severity
unfolding parse
sev_of value = elim (parse value) [ none ↦ info | some s ↦ s ]

unfoldable pub add : Text → ℕ → Signal → Severity → Bool → Tally → Tally
unfolding put get rank
add host weight label sev counts t = if is_blank host then t else record {
  score = put host (min 100 (get_or 0 host t.score + weight)) t.score;
  signals = put host (get_or [] host t.signals ++ (label ∷ [])) t.signals;
  top_sev =
      if ltb (rank (get_or info host t.top_sev)) (rank sev)
      then put host sev t.top_sev
      else t.top_sev;
  high_signal_count =
      if counts
      then put host (get_or 0 host t.high_signal_count + 1) t.high_signal_count
      else t.high_signal_count;
}

abbrev pub is_high : Severity → Bool
is_high s = leb (rank high) (rank s)

-- The test for "://".
abbrev pub starts_scheme : Text → Bool
starts_scheme (a ∷ (b ∷ (c ∷ s))) = nat_beq a b':' && (nat_beq b b'/' && nat_beq c b'/')
starts_scheme _ = false

abbrev pub has_scheme : Text → Bool
has_scheme [] = false
has_scheme (a ∷ s) = starts_scheme (a ∷ s) || has_scheme s

module _ (url_host : Text → Text) where
  unfoldable pub host_of : Text → Text
  unfolding lower normal
  host_of s = if has_scheme s then lower (url_host s) else normal s

  -- The body of the loop over the findings.
  unfoldable pub add_finding : Found → Tally → Tally
  unfolding add host_of sev_of severity_weight
  add_finding f t =
      let sev = sev_of f.severity in
      if contains f.state suppressed_states
      then t
      else add (host_of f.location) (severity_weight sev) (of_finding f.check_id) sev (is_high sev)
          t

  unfoldable pub add_findings : List Found → Tally → Tally
  unfolding add_finding
  add_findings [] t = t
  add_findings (f ∷ fs) t = add_findings fs (add_finding f t)

  unfoldable pub add_secrets : List Secret → Tally → Tally
  unfolding add host_of sev_of severity_weight
  add_secrets [] t = t
  add_secrets (s ∷ ss) t =
      let sev = sev_of s.severity in
      add_secrets ss (
        add (host_of s.source_locator) (severity_weight sev) (of_secret s.kind) sev (is_high sev) t)

  -- host or "*"
  abbrev pub or_star : Text → Text
  or_star [] = b'*' ∷ []
  or_star (c ∷ s) = c ∷ s

  unfoldable pub add_leaks : List Leak → Tally → Tally
  unfolding add host_of
  add_leaks [] t = t
  add_leaks (l ∷ ls) t =
      add_leaks ls (add (or_star (host_of l.url)) 30 (of_leak l.kind) high true t)

-- {a.get("fingerprint"): a["hostname"] for a in assets if a.get("hostname")}
unfoldable pub fp_to_host : List Asset → Dict String Text → Dict String Text
unfolding put
fp_to_host [] d = d
fp_to_host (a ∷ others) d =
    fp_to_host others (if is_blank a.hostname then d else put a.fingerprint a.hostname d)

abbrev pub put_all : Text → List Text → Dict Text Text → Dict Text Text
put_all host [] d = d
put_all host (ip ∷ ips) d = put_all host ips (put ip host d)

unfoldable pub ip_to_host : List Asset → Dict Text Text → Dict Text Text
unfolding put
ip_to_host [] d = d
ip_to_host (a ∷ others) d =
    ip_to_host others (if is_blank a.hostname then d else put_all a.hostname a.resolved_ips d)

-- {a["hostname"] for a in assets if a.get("is_ephemeral")}
unfoldable pub ephemeral : List Asset → List Text
unfolding insert contains
ephemeral [] = []
ephemeral (a ∷ others) =
    let rest = ephemeral others in if a.is_ephemeral then insert a.hostname rest else rest

-- {a["hostname"].lower() for a in assets if a.get("hostname")}
unfoldable pub in_scope : List Asset → List Text
unfolding lower
in_scope [] = []
in_scope (a ∷ others) =
    let rest = in_scope others in if is_blank a.hostname then rest else lower a.hostname ∷ rest

abbrev pub cve_weight : CveMatch → ℕ
cve_weight m = if m.on_kev then 45 else if m.confidence == "high" then 25 else 8

-- fp_to_host.get(m.get("asset_fingerprint"), "")
abbrev pub host_by : Dict String Text → String → Text
host_by d fp = elim (get fp d) [ none ↦ [] | some host ↦ host ]

unfoldable pub add_cve_matches : Dict String Text → List CveMatch → Tally → Tally
unfolding add get sev_of
add_cve_matches d [] t = t
add_cve_matches d (m ∷ ms) t = add_cve_matches d ms (
    add (host_by d m.asset_fingerprint) (cve_weight m) (of_cve m.cve_id m.on_kev)
      (sev_of m.severity) (m.on_kev || m.confidence == "high") t)

unfoldable pub add_ports : Dict Text Text → List Port → Tally → Tally
unfolding add get contains
add_ports d [] t = t
add_ports d (p ∷ ps) t = add_ports d ps (
    if contains p.port sensitive_ports
    then add (get_or p.ip p.ip d) 15 (of_port p.port) medium false t
    else t)

unfoldable pub boost : List Text → Tally → Tally
unfolding add contains
boost [] t = t
boost (host ∷ hosts) t =
    boost hosts (if contains host (keys t.score) then add host 10 ephemeral_env low false t else t)

-- The issue of a host, and those of the hosts in scope.
unfoldable pub issue_of : Tally → Text → ℕ → CorrelatedIssue
unfolding get
issue_of t host score = record {
  host = host;
  risk_score = score;
  highest_severity = get_or info host t.top_sev;
  is_chain = leb 2 (get_or 0 host t.high_signal_count);
  signals = get_or [] host t.signals;
}

unfoldable pub issues_of : Tally → List Text → Dict Text ℕ → List CorrelatedIssue
unfolding issue_of contains
issues_of t scope [] = []
issues_of t scope ((host, score) ∷ rest) =
    let more = issues_of t scope rest in
    if contains host scope then issue_of t host score ∷ more else more

-- (a.is_chain, a.risk_score) < (b.is_chain, b.risk_score)
unfoldable pub ranks_below : CorrelatedIssue → CorrelatedIssue → Bool
ranks_below a b =
    (not a.is_chain && b.is_chain)
    || (not (a.is_chain && not b.is_chain) && ltb a.risk_score b.risk_score)

-- issues.sort(key=..., reverse=True), which keeps the order of equals.
unfoldable pub insert_issue : CorrelatedIssue → List CorrelatedIssue → List CorrelatedIssue
unfolding ranks_below
insert_issue i [] = i ∷ []
insert_issue i (x ∷ xs) = if ranks_below i x then x ∷ insert_issue i xs else i ∷ x ∷ xs

unfoldable pub sort_issues : List CorrelatedIssue → List CorrelatedIssue
unfolding insert_issue
sort_issues [] = []
sort_issues (i ∷ is) = insert_issue i (sort_issues is)

abbrev pub no_tally : Tally
no_tally = record { score = []; signals = []; top_sev = []; high_signal_count = [] }

module _ (url_host : Text → Text) where
  unfoldable pub tally :
      List Asset → List Found → List Secret → List Leak → List CveMatch → List Port → Tally
  unfolding add_findings add_secrets add_leaks add_cve_matches add_ports boost fp_to_host ip_to_host
      ephemeral
  tally assets findings secrets leaks cve_matches ports = boost (ephemeral assets) (
      add_ports (ip_to_host assets []) ports (
        add_cve_matches (fp_to_host assets []) cve_matches (
          add_leaks url_host leaks
            (add_secrets url_host secrets (add_findings url_host findings no_tally)))))

  unfoldable pub correlate :
      List Asset
      → List Found
      → List Secret
      → List Leak
      → List CveMatch
      → List Port
      → List CorrelatedIssue
  unfolding tally sort_issues issues_of in_scope
  correlate assets findings secrets leaks cve_matches ports =
      let t = tally assets findings secrets leaks cve_matches ports in
      sort_issues (issues_of t (in_scope assets) t.score)
