-- ===== src/Certs/Ensure.antt =====
-- ensureCert and invalidateCert of cert-lifecycle.js: one generation at a time for every host.
use block_proxy.Common.{ℕ, ◌+◌, List, [], ◌∷◌, Option, none, some, ◌==◌, if◌then◌else◌, text_eq}
use block_proxy.Wire.Buffer.{Text}
use block_proxy.Certs.Names.{normalize_hostname}
use block_proxy.Certs.Cache.{Files, Crypto, validate_cache, delete_cache}

-- A promise of ensureCert: it is about to end, from the cache or by an exception; it waits for the
-- generator; or its `finally` has run.
pub data Stage : Type 0 where
  returning generating ended : Stage

pub record Job : Type 0 where
  pub host : Text
  pub stage : Stage

-- pendingCerts holds the number of a job; the jobs are numbered as they are made.
pub record Certs : Type 0 where
  pub files : Files
  pub pending : Text → Option ℕ
  pub job : ℕ → Option Job
  pub next_job : ℕ

-- `set` and `delete` of the map.
abbrev pub put_pending : (Text → Option ℕ) → Text → Option ℕ → Text → Option ℕ
put_pending pending host o t = if text_eq host t then o else pending t

abbrev pub put_job : (ℕ → Option Job) → ℕ → Job → ℕ → Option Job
put_job job id j k = if id == k then some j else job k

abbrev pub no_certs : Files → Certs
no_certs files = record { files = files; pending = λ t. none; job = λ k. none; next_job = 0 }

-- A new promise, with the files that its start leaves.
unfoldable pub begin : Certs → Text → Stage → Files → Certs
begin s host stage files = record {
  files = files;
  pending = put_pending s.pending host (some s.next_job);
  job = put_job s.job s.next_job (record { host = host; stage = stage });
  next_job = s.next_job + 1;
}

-- `.finally`
unfoldable pub finish : Certs → ℕ → Text → Certs
finish s id host = record s {
  pending = put_pending s.pending host none;
  job = put_job s.job id (record { host = host; stage = ended });
}

-- What the event of a job does, by its stage.
abbrev pub on_stage : Stage → Certs → Certs → Certs → Certs
on_stage returning a b c = a
on_stage generating a b c = b
on_stage ended a b c = c

pub data Event : Type 0 where
  asks : Text → ℕ → Event
  returns : ℕ → Event
  generated : ℕ → Files → ℕ → Event
  generator_fails : ℕ → Event
  invalidates : Text → Event

abbrev pub at_job : Certs → Option Job → (Job → Certs) → Certs
at_job s none f = s
at_job s (some j) f = f j

module _ (crypto : Crypto) (domain_to_ascii : Text → Text) where
  abbrev pub normalize : Text → Option Text
  normalize = normalize_hostname domain_to_ascii

  -- The start of a promise for a normalized host, whose paths are those of the name normalized once
  -- more.
  unfoldable pub start_job : Certs → Text → Option Text → ℕ → Certs
  start_job s host none now = begin s host returning s.files
  start_job s host (some name) now =
      if validate_cache crypto s.files name now
      then begin s host returning s.files
      else begin s host generating (delete_cache s.files name)

  abbrev pub unless_pending : Certs → Option ℕ → Certs → Certs
  unless_pending s (some id) t = s
  unless_pending s none t = t

  unfoldable pub ensure_cert : Certs → Option Text → ℕ → Certs
  ensure_cert s none now = s
  ensure_cert s (some host) now =
      unless_pending s (s.pending host) (start_job s host (normalize host) now)

  -- The generator has called back; `files` is what it left, and what is not valid is deleted.
  unfoldable pub checked_files : Files → Option Text → ℕ → Files
  checked_files files none now = files
  checked_files files (some name) now =
      if validate_cache crypto files name now then files else delete_cache files name

  unfoldable pub invalidate_cert : Certs → Option Text → Certs
  invalidate_cert s none = s
  invalidate_cert s (some name) = record s {
    files = delete_cache s.files name;
    pending = put_pending s.pending name none;
  }

  unfoldable pub step : Certs → Event → Certs
  step s (asks hostname now) = ensure_cert s (normalize hostname) now
  step s (returns id) = at_job s (s.job id) λ j. on_stage j.stage (finish s id j.host) s s
  step s (generated id files now) = at_job s (s.job id) λ j.
      on_stage j.stage s
        (finish (record s { files = checked_files files (normalize j.host) now }) id j.host) s
  step s (generator_fails id) = at_job s (s.job id) λ j. on_stage j.stage s (finish s id j.host) s
  step s (invalidates hostname) = invalidate_cert s (normalize hostname)

  unfoldable pub run : Certs → List Event → Certs
  run s [] = s
  run s (e ∷ es) = run (step s e) es
