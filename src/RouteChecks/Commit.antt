-- ===== src/RouteChecks/Commit.antt =====
-- `resolve_commit` of orchestrator/route_checks.py. The GitLab adapter is a function of the
-- repository's address and a reference: the commit that it resolves, or what it raises.
use docker_jenkins_orchestra.Prelude.{
  ℕ, String, Bool, true, false, not, ◌&&◌, ◌||◌, Option, none, some, map, leb, if◌then◌else◌, ◌==◌,
  nat_eq, string_eq, option_eq, pair_eq,
}
use docker_jenkins_orchestra.Text.{codes, printable}
use docker_jenkins_orchestra.Text.Regex.{Regex, cls, seq, times, optional, fullmatch}
use docker_jenkins_orchestra.Naming.{is_digit, lower}
use docker_jenkins_orchestra.Models.App.{UserAppRecord}
use docker_jenkins_orchestra.Compose.Checked.{◌>>=◌, ◌>>◌}
use docker_jenkins_orchestra.World.{Result, ok, err, Error}

-- `[0-9a-fA-F]`
abbrev pub is_hex : ℕ → Bool
is_hex c = is_digit c || (leb b'a' c && leb c b'f') || (leb b'A' c && leb c b'F')

-- `_SHA`
abbrev pub sha_pattern : Regex
sha_pattern = seq (times 40 (cls is_hex)) (optional (times 24 (cls is_hex)))

unfoldable pub is_sha : String → Bool
is_sha text = fullmatch sha_pattern (codes text)

-- `text.lower()` on ASCII
abbrev pub lowered : String → String
lowered text = printable (map lower (codes text))

abbrev pub refuse_input : Bool → String → Result (Unit {0})
refuse_input true message = err (Error.route_check_input message)
refuse_input false message = ok tt

-- `git_ref or app.git_ref`
abbrev pub ref_or : Option String → String → String
ref_or none default = default
ref_or (some ref) default = if ref == "" then default else ref

-- whether a full commit was asked for, and another one came back
abbrev pub is_other_commit : String → Option String → Bool
is_other_commit commit none = false
is_other_commit commit (some ref) = is_sha ref && not (lowered commit == lowered ref)

abbrev pub ResolveRef : Type 0
ResolveRef = String → String → Result String

abbrev pub configured : Option ResolveRef → Result ResolveRef
configured none =
    err (Error.route_check_input "Route checks require a configured GitLab repository adapter")
configured (some resolve) = ok resolve

unfoldable pub resolve_commit : Option ResolveRef → UserAppRecord → Option String → Result String
resolve_commit gitlab app git_ref = do
  refuse_input (app.repository_url == "") "Route checks require an associated Git repository"
  resolve ← configured gitlab
  commit ← resolve app.repository_url (ref_or git_ref app.git_ref)
  refuse_input (not (is_sha commit)) "GitLab did not resolve an immutable full commit SHA"
  refuse_input (is_other_commit commit git_ref) "GitLab returned a different commit than requested"
  ok (lowered commit)
