-- ===== src/Certs/Single.antt =====
-- At most one promise of ensureCert is open for a host.
use block_proxy.Common.{
  ℕ, ◌≡◌, refl, sym, ap, ◌∙◌, Bool, true, false, List, [], ◌∷◌, Option, none, some, All, ◌==◌,
  ==→eq, ==_refl, if_on, if_off, if_rule, text_eq, text_eq_refl, text_eq→eq, inl, inr, Bool-cases,
}
use mathlib.Core.Bool.{false≢true}
use block_proxy.Wire.Buffer.{Text}
use block_proxy.Certs.Cache.{Files, Crypto, validate_cache, delete_cache}
use block_proxy.Certs.Ensure.{
  Stage, returning, generating, ended, Job, Certs, put_pending, no_certs, begin, finish, on_stage,
  normalize, start_job, unless_pending, ensure_cert, checked_files, Event, asks, returns, generated,
  generator_fails, invalidates, at_job, step, run,
}

abbrev pub is_open : Stage → Bool
is_open ended = false
is_open returning = true
is_open generating = true

abbrev pub is_calm : Event → Bool
is_calm (invalidates t) = false
is_calm (asks t now) = true
is_calm (returns id) = true
is_calm (generated id files now) = true
is_calm (generator_fails id) = true

-- Every open job is the one that is pending for its host.
abbrev IsSingle : Certs → Type 0
IsSingle s =
    (id : ℕ) (j : Job) → s.job id ≡ some j → is_open j.stage ≡ true → s.pending j.host ≡ some id

some_eq : (a b : Job) → some a ≡ some b → a ≡ b
some_eq a b h = ap (λ o. elim o as (λ _. Job) [ none ↦ a | some x ↦ x ]) h

number_eq : (a b : ℕ) → some a ≡ some b → a ≡ b
number_eq a b h = ap (λ o. elim o as (λ _. ℕ) [ none ↦ a | some x ↦ x ]) h

begin-IsSingle :
    (s : Certs) (host : Text) (stage : Stage) (files : Files)
    → IsSingle s
    → s.pending host ≡ none
    → IsSingle (begin s host stage files)
unfolding begin
begin-IsSingle s host stage files single free id j h o = elim (Bool-cases (s.next_job == id)) [
  | inl e ↦
      let made : Job = record { host = host; stage = stage } in
      let same = some_eq made j (sym (if_on _ (s.job id) (s.next_job == id) e) ∙ h) in
      ap (λ q. put_pending s.pending host (some s.next_job) q.host) (sym same)
      ∙ if_on _ _ (text_eq host host) (text_eq_refl host)
      ∙ ap some (==→eq s.next_job id e)
  | inr e ↦
      let before = single id j (sym (if_off _ (s.job id) (s.next_job == id) e) ∙ h) o in
      elim (Bool-cases (text_eq host j.host)) [
        | inl t ↦
            let clash : none ≡ some id =
              sym free ∙ ap s.pending (text_eq→eq host j.host t) ∙ before in
            cc
        | inr t ↦ if_off _ _ (text_eq host j.host) t ∙ before
      ]
]

finish-IsSingle :
    (s : Certs) (id : ℕ) (a : Job)
    → IsSingle s
    → s.job id ≡ some a
    → is_open a.stage ≡ true
    → IsSingle (finish s id a.host)
unfolding finish
finish-IsSingle s id a single g p k j h o = elim (Bool-cases (id == k)) [
  | inl e ↦
      let over : Job = record { host = a.host; stage = ended } in
      let same = some_eq over j (sym (if_on _ (s.job k) (id == k) e) ∙ h) in
      absurd (false≢true (ap (λ q. is_open q.stage) same ∙ o))
  | inr e ↦
      let before = single k j (sym (if_off _ (s.job k) (id == k) e) ∙ h) o in
      elim (Bool-cases (text_eq a.host j.host)) [
        | inl t ↦
            let clash : some id ≡ some k =
              sym (single id a g p) ∙ ap s.pending (text_eq→eq a.host j.host t) ∙ before in
            absurd
              (false≢true (sym e ∙ ap (λ q. id == q) (sym (number_eq id k clash)) ∙ ==_refl id))
        | inr t ↦ if_off _ _ (text_eq a.host j.host) t ∙ before
      ]
]

at_job-IsSingle :
    (s : Certs) (o : Option Job) (f : Job → Certs)
    → IsSingle s
    → ((j : Job) → o ≡ some j → IsSingle (f j))
    → IsSingle (at_job s o f)
at_job-IsSingle s none f h g = h
at_job-IsSingle s (some j) f h g = g j refl

on_stage-IsSingle :
    (q : Stage) (a b c : Certs)
    → (q ≡ returning → IsSingle a)
    → (q ≡ generating → IsSingle b)
    → IsSingle c
    → IsSingle (on_stage q a b c)
on_stage-IsSingle returning a b c f g h = f refl
on_stage-IsSingle generating a b c f g h = g refl
on_stage-IsSingle ended a b c f g h = h

module _ (crypto : Crypto) (ascii : Text → Text) where
  start_job-IsSingle :
      (s : Certs) (host : Text) (o : Option Text) (now : ℕ)
      → IsSingle s
      → s.pending host ≡ none
      → IsSingle (start_job crypto ascii s host o now)
  unfolding start_job
  start_job-IsSingle s host none now h free = begin-IsSingle s host returning s.files h free
  start_job-IsSingle s host (some name) now h free =
      if_rule IsSingle (validate_cache crypto s.files name now)
        (λ e. begin-IsSingle s host returning s.files h free)
        (λ e. begin-IsSingle s host generating (delete_cache s.files name) h free)

  unless_pending-IsSingle :
      (s t : Certs) (o : Option ℕ)
      → IsSingle s
      → (o ≡ none → IsSingle t)
      → IsSingle (unless_pending crypto ascii s o t)
  unless_pending-IsSingle s t none h g = g refl
  unless_pending-IsSingle s t (some id) h g = h

  ensure_cert-IsSingle :
      (s : Certs) (o : Option Text) (now : ℕ)
      → IsSingle s
      → IsSingle (ensure_cert crypto ascii s o now)
  unfolding ensure_cert
  ensure_cert-IsSingle s none now h = h
  ensure_cert-IsSingle s (some host) now h =
      unless_pending-IsSingle s _ (s.pending host) h
        λ free. start_job-IsSingle s host (normalize crypto ascii host) now h free

  step-IsSingle :
      (s : Certs) (e : Event) → is_calm e ≡ true → IsSingle s → IsSingle (step crypto ascii s e)
  unfolding step
  step-IsSingle s (asks t now) c h = ensure_cert-IsSingle s (normalize crypto ascii t) now h
  step-IsSingle s (returns id) c h =
      at_job-IsSingle s (s.job id) (λ j. on_stage j.stage (finish s id j.host) s s) h
        λ j g.
          on_stage-IsSingle j.stage (finish s id j.host) s s
            (λ q. finish-IsSingle s id j h g (ap is_open q)) (λ q. h) h
  step-IsSingle s (generated id files now) c h = at_job-IsSingle s (s.job id) _ h λ j g.
      let left : Certs = record s {
        files = checked_files crypto ascii files (normalize crypto ascii j.host) now;
      } in
      on_stage-IsSingle j.stage s (finish left id j.host) s (λ q. h)
        (λ q. finish-IsSingle left id j h g (ap is_open q)) h
  step-IsSingle s (generator_fails id) c h =
      at_job-IsSingle s (s.job id) (λ j. on_stage j.stage s (finish s id j.host) s) h
        λ j g.
          on_stage-IsSingle j.stage s (finish s id j.host) s (λ q. h)
            (λ q. finish-IsSingle s id j h g (ap is_open q)) h
  step-IsSingle s (invalidates t) c h = absurd (false≢true c)

  run-IsSingle :
      (s : Certs) (es : List Event)
      → All (λ e. is_calm e ≡ true) es
      → IsSingle s
      → IsSingle (run crypto ascii s es)
  unfolding run
  run-IsSingle s [] c h = h
  run-IsSingle s (e ∷ es) c h =
      run-IsSingle (step crypto ascii s e) es c.1 (step-IsSingle s e c.0 h)

  none_open : (files : Files) → IsSingle (no_certs files)
  none_open files id j h o = cc

  -- After any calls and callbacks without an invalidation, every open promise is the one that
  -- pendingCerts holds for its host.
  pub run-pending :
      (files : Files) (es : List Event) (id : ℕ) (j : Job)
      → All (λ e. is_calm e ≡ true) es
      → (run crypto ascii (no_certs files) es).job id ≡ some j
      → is_open j.stage ≡ true
      → (run crypto ascii (no_certs files) es).pending j.host ≡ some id
  run-pending files es id j calm h o =
      run-IsSingle (no_certs files) es calm (none_open files) id j h o

  -- So two open promises for the same host are one.
  pub run_single :
      (files : Files) (es : List Event) (i k : ℕ) (a b : Job)
      → All (λ e. is_calm e ≡ true) es
      → (run crypto ascii (no_certs files) es).job i ≡ some a
      → (run crypto ascii (no_certs files) es).job k ≡ some b
      → is_open a.stage ≡ true
      → is_open b.stage ≡ true
      → a.host ≡ b.host
      → i ≡ k
  run_single files es i k a b calm ha hb oa ob same = number_eq i k (
      sym (run-pending files es i a calm ha oa)
      ∙ ap (run crypto ascii (no_certs files) es).pending same
      ∙ run-pending files es k b calm hb ob)
