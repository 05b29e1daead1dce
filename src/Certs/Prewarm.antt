-- ===== src/Certs/Prewarm.antt =====
-- The prewarming of cert-lifecycle.js: the domains, and the workers that share one cursor.
use block_proxy.Common.{
  ℕ, zero, suc, ◌+◌, ◌-◌, Bool, true, false, List, [], ◌∷◌, ◌++◌, map, Option, none, some, length,
  get_elem?, leb, ◌==◌, if◌then◌else◌,
}
use block_proxy.Wire.Buffer.{Text}
use block_proxy.Mitm.Registry.{Rule}
use block_proxy.Mitm.Handler.{distinct, hosts_of}
use block_proxy.Filter.Blocks.{BlockItem, plain, detailed}
use block_proxy.Certs.Names.{normalize_hostname}

-- The texts that are kept of a list of hosts: an invalid or empty one is left out.
abbrev pub cons_some : Option Text → List Text → List Text
cons_some none ts = ts
cons_some (some t) ts = t ∷ ts

abbrev pub filter_host_of : BlockItem → Text
filter_host_of (plain t) = t
filter_host_of (detailed r) = r.filter_host

module _ (domain_to_ascii : Text → Text) where
  unfoldable pub normalized : List Text → List Text
  normalized [] = []
  normalized (h ∷ hosts) = cons_some (normalize_hostname domain_to_ascii h) (normalized hosts)

  unfoldable pub get_domains_to_prewarm : List Rule → List BlockItem → List Text
  get_domains_to_prewarm rules items =
      distinct (normalized (hosts_of rules) ++ normalized (map filter_host_of items))

-- The state of prewarmCerts: `running` workers each wait for one certificate; `tried` is what
-- ensureCert was called with.
pub record Pool : Type 0 where
  pub queue : List Text
  pub cursor : ℕ
  pub success : ℕ
  pub fail : ℕ
  pub running : ℕ
  pub tried : List Text

-- The head of the `while` of a worker: the next domain, or the end of the worker.
unfoldable pub next_domain : Pool → Option Text → Pool
next_domain p none = record p { running = p.running - 1 }
next_domain p (some domain) = record p { cursor = p.cursor + 1; tried = p.tried ++ (domain ∷ []) }

abbrev pub work : Pool → Pool
work p = next_domain p (get_elem? p.queue p.cursor)

-- The workers are started one after the other.
unfoldable pub launch : ℕ → Pool → Pool
launch zero p = p
launch (suc n) p = launch n (work (record p { running = p.running + 1 }))

abbrev pub min_of : ℕ → ℕ → ℕ
min_of a b = if leb a b then a else b

abbrev pub idle : List Text → Pool
idle queue = record { queue = queue; cursor = 0; success = 0; fail = 0; running = 0; tried = [] }

-- A concurrency of 0 counts as 4, the default.
abbrev pub or_four : ℕ → ℕ
or_four zero = 4
or_four (suc n) = suc n

unfoldable pub start : List Text → ℕ → Pool
start queue concurrency = launch (min_of (or_four concurrency) (length queue)) (idle queue)

-- `domains.map(normalizeHostname)`: one invalid name makes the whole call throw.
unfoldable pub normalize_all : (Text → Text) → List Text → Option (List Text)
normalize_all ascii [] = some []
normalize_all ascii (d ∷ domains) = elim (normalize_hostname ascii d) [
  | none ↦ none
  | some n ↦ elim (normalize_all ascii domains) [ none ↦ none | some ns ↦ some (n ∷ ns) ]
]

unfoldable pub prewarm_certs : (Text → Text) → List Text → ℕ → Option Pool
prewarm_certs ascii domains concurrency = elim (normalize_all ascii domains) [
  | none ↦ none
  | some names ↦ some (start (distinct names) concurrency)
]

-- One certificate is there, or failed; its worker goes on.
unfoldable pub settled : Pool → Bool → Pool
settled p true = work (record p { success = p.success + 1 })
settled p false = work (record p { fail = p.fail + 1 })

-- Certificates one after the other, in the order in which they come.
unfoldable pub settle_each : Pool → List Bool → Pool
settle_each p [] = p
settle_each p (b ∷ bs) = settle_each (if p.running == 0 then p else settled p b) bs
