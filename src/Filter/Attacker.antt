-- ===== src/Filter/Attacker.antt =====
-- proxy/attacker.js: which addresses are taken for attackers.
use block_proxy.Common.{
  ℕ, ◌+◌, Bool, false, ◌&&◌, ◌||◌, not, List, [], ◌∷◌, ◌++◌, Option, none, some, length, take, leb,
  ltb, ◌==◌, if◌then◌else◌, text_eq,
}
use block_proxy.Wire.Buffer.{Text}

abbrev pub window_ms : ℕ
window_ms = 120000

abbrev pub bad_threshold : ℕ
bad_threshold = 20

abbrev pub inactive_timeout : ℕ
inactive_timeout = 600000

abbrev pub good_guy_duration : ℕ
good_guy_duration = 600000

pub record Access : Type 0 where
  pub timestamps : List ℕ
  pub is_bad : Bool
  pub last_seen : ℕ
  pub good_until : Option ℕ

-- ipAccessLog, in the order of insertion.
abbrev pub AccessLog : Type 0
AccessLog = List (Text × Access)

unfoldable pub lookup_ip : AccessLog → Text → Option Access
lookup_ip [] ip = none
lookup_ip ((i, a) ∷ log) ip = let rest = lookup_ip log ip in if text_eq i ip then some a else rest

unfoldable pub set_ip : AccessLog → Text → Access → AccessLog
set_ip [] ip a = (ip, a) ∷ []
set_ip ((i, b) ∷ log) ip a =
    let rest = set_ip log ip a in if text_eq i ip then (i, a) ∷ log else (i, b) ∷ rest

-- `ts > cutoff`, with the cutoff `now - duration`, which may lie below 0.
unfoldable pub recent : ℕ → List ℕ → List ℕ
recent now [] = []
recent now (ts ∷ timestamps) =
    let rest = recent now timestamps in if ltb now (ts + window_ms) then ts ∷ rest else rest

-- `record.goodUntil && now < record.goodUntil`
unfoldable pub in_good_period : Option ℕ → ℕ → Bool
in_good_period none now = false
in_good_period (some until) now = not (until == 0) && ltb now until

abbrev pub or_new : Option Access → ℕ → Access
or_new none last_seen = record {
  timestamps = [];
  is_bad = false;
  last_seen = last_seen;
  good_until = none;
}
or_new (some a) last_seen = a

abbrev pub accessed : Access → ℕ → Access
accessed a now =
    let timestamps = recent now a.timestamps ++ (now ∷ []) in
    record {
      timestamps = timestamps;
      is_bad =
          if in_good_period a.good_until now
          then false
          else a.is_bad || leb bad_threshold (length timestamps);
      last_seen = now;
      good_until = a.good_until;
    }

-- countIPAccess; its result is the number of the timestamps that it stores.
unfoldable pub count_ip_access : AccessLog → Text → ℕ → AccessLog
count_ip_access log ip now = set_ip log ip (accessed (or_new (lookup_ip log ip) 0) now)

unfoldable pub is_bad_guy : AccessLog → Text → ℕ → Bool
is_bad_guy log ip now = elim (lookup_ip log ip) [
  | none ↦ false
  | some a ↦ if in_good_period a.good_until now then false else a.is_bad
]

abbrev pub washed : Access → ℕ → Access
washed a now = record a {
  good_until = some (now + good_guy_duration);
  last_seen = now;
  is_bad = false;
}

unfoldable pub set_good_guy : AccessLog → Text → ℕ → AccessLog
set_good_guy log ip now = set_ip log ip (washed (or_new (lookup_ip log ip) now) now)

-- cleanupInactiveIPs: the records that go, and the timestamps of those that stay.
unfoldable pub is_inactive : Access → ℕ → Bool
is_inactive a now =
    not (in_good_period a.good_until now) && ltb (a.last_seen + inactive_timeout) now

unfoldable pub keep_active : AccessLog → ℕ → AccessLog
keep_active [] now = []
keep_active ((ip, a) ∷ log) now =
    let rest = keep_active log now in
    if is_inactive a now
    then rest
    else (ip, record a { timestamps = recent now a.timestamps }) ∷ rest

-- `sort` by lastSeen, which keeps the order of equal ones.
unfoldable pub insert_seen : Text × Access → AccessLog → AccessLog
insert_seen x [] = x ∷ []
insert_seen x (y ∷ log) =
    let rest = insert_seen x log in
    if ltb x.1.last_seen y.1.last_seen then x ∷ y ∷ log else y ∷ rest

unfoldable pub sort_seen : AccessLog → AccessLog → AccessLog
sort_seen sorted [] = sorted
sort_seen sorted (x ∷ log) = sort_seen (insert_seen x sorted) log

unfoldable pub delete_ip : AccessLog → Text → AccessLog
delete_ip [] ip = []
delete_ip ((i, a) ∷ log) ip =
    let rest = delete_ip log ip in if text_eq i ip then log else (i, a) ∷ rest

unfoldable pub delete_each : AccessLog → AccessLog → AccessLog
delete_each log [] = log
delete_each log ((ip, a) ∷ oldest) = delete_each (delete_ip log ip) oldest

-- Of more than 10000 records the 1000 that were seen longest ago go.
unfoldable pub cleanup_inactive_ips : AccessLog → ℕ → AccessLog
cleanup_inactive_ips log now =
    let kept = keep_active log now in
    if ltb 10000 (length kept) then delete_each kept (take 1000 (sort_seen [] kept)) else kept
