-- ===== src/Filter/Watch.antt =====
-- The exemption of proxy/attacker.js.
use block_proxy.Common.{
  ℕ, ◌+◌, ◌<◌, ◌≤◌, ◌≡◌, refl, ap, ◌∙◌, arith, true, false, List, [], ◌∷◌, some, All, if_on,
  text_eq, text_eq_refl, text_eq→eq, inl, inr, Bool-cases,
}
use block_proxy.Wire.Buffer.{Text}
use block_proxy.Filter.Attacker.{
  Access, AccessLog, lookup_ip, set_ip, accessed, washed, or_new, in_good_period, count_ip_access,
  is_bad_guy, set_good_guy, good_guy_duration,
}

-- What happens to an address at a time.
pub data Event : Type 0 where
  refused_once admitted_once : Text → ℕ → Event

abbrev pub time : Event → ℕ
time (refused_once ip t) = t
time (admitted_once ip t) = t

unfoldable pub happen : AccessLog → List Event → AccessLog
happen log [] = log
happen log (refused_once ip t ∷ es) = happen (count_ip_access log ip t) es
happen log (admitted_once ip t ∷ es) = happen (set_good_guy log ip t) es

lookup_ip-set_ip :
    (log : AccessLog) (ip : Text) (a : Access) → lookup_ip (set_ip log ip a) ip ≡ some a
unfolding lookup_ip set_ip
lookup_ip-set_ip [] ip a = rw (text_eq_refl ip) refl
lookup_ip-set_ip ((i, b) ∷ log) ip a = elim (Bool-cases (text_eq i ip)) [
  | inl e ↦ rw (e, e) refl
  | inr e ↦ rw (e, e) (lookup_ip-set_ip log ip a)
]

lookup_ip-others :
    (log : AccessLog) (ip other : Text) (a : Access)
    → text_eq other ip ≡ false
    → lookup_ip (set_ip log other a) ip ≡ lookup_ip log ip
unfolding lookup_ip set_ip
lookup_ip-others [] ip other a h = rw h refl
lookup_ip-others ((i, b) ∷ log) ip other a h = elim (Bool-cases (text_eq i other)) [
  | inl e ↦ let f = ap (λ q. text_eq q ip) (text_eq→eq i other e) ∙ h in rw (e, f) refl
  | inr e ↦ elim (Bool-cases (text_eq i ip)) [
    | inl g ↦ rw (e, g) refl
    | inr g ↦ rw (e, g) (lookup_ip-others log ip other a h)
  ]
]

-- A record that exempts its address until a time at least.
abbrev IsExempt : AccessLog → Text → ℕ → Type 0
IsExempt log ip until =
    (a : Access) × (end : ℕ) × (lookup_ip log ip ≡ some a)
    × (a.good_until ≡ some end)
    × (until ≤ end)

exempt_now : (end until now : ℕ) → now < until → until ≤ end → in_good_period (some end) now ≡ true
unfolding in_good_period
exempt_now end until now h k = ground arith

-- A write to the log that exempts its address as long keeps the exemption.
set_ip-IsExempt :
    (log : AccessLog) (ip other : Text) (until : ℕ) (a : Access)
    → IsExempt log ip until
    → (other ≡ ip → (end : ℕ) × (a.good_until ≡ some end) × (until ≤ end))
    → IsExempt (set_ip log other a) ip until
set_ip-IsExempt log ip other until a (b, end, found, good, le) f =
    elim (Bool-cases (text_eq other ip)) [
      | inl e ↦
          let same = text_eq→eq other ip e in
          let (later, good, le) = f same in
          (
            a,
            later,
            ap (λ q. lookup_ip (set_ip log q a) ip) same ∙ lookup_ip-set_ip log ip a,
            good,
            le,
          )
      | inr e ↦ (b, end, lookup_ip-others log ip other a e ∙ found, good, le)
    ]

refused-IsExempt :
    (log : AccessLog) (ip other : Text) (until t : ℕ)
    → IsExempt log ip until
    → IsExempt (count_ip_access log other t) ip until
unfolding count_ip_access
refused-IsExempt log ip other until t (a, end, found, good, le) =
    set_ip-IsExempt log ip other until (accessed (or_new (lookup_ip log other) 0) t)
      (a, end, found, good, le)
      λ same. (end, ap (λ o. (or_new o 0).good_until) (ap (lookup_ip log) same ∙ found) ∙ good, le)

admitted-IsExempt :
    (log : AccessLog) (ip other : Text) (until t : ℕ)
    → until ≤ t + good_guy_duration
    → IsExempt log ip until
    → IsExempt (set_good_guy log other t) ip until
unfolding set_good_guy
admitted-IsExempt log ip other until t h e =
    set_ip-IsExempt log ip other until (washed (or_new (lookup_ip log other) t) t) e
      λ same. (t + good_guy_duration, refl, h)

happen-IsExempt :
    (log : AccessLog) (ip : Text) (start : ℕ) (es : List Event)
    → All (λ e. start ≤ time e) es
    → IsExempt log ip (start + good_guy_duration)
    → IsExempt (happen log es) ip (start + good_guy_duration)
unfolding happen
happen-IsExempt log ip start [] h e = e
happen-IsExempt log ip start (refused_once other t ∷ es) h e =
    happen-IsExempt (count_ip_access log other t) ip start es h.1
      (refused-IsExempt log ip other (start + good_guy_duration) t e)
happen-IsExempt log ip start (admitted_once other t ∷ es) h e =
    happen-IsExempt (set_good_guy log other t) ip start es h.1
      (admitted-IsExempt log ip other (start + good_guy_duration) t (omega (arith, h.0)) e)

set_good_guy-IsExempt :
    (log : AccessLog) (ip : Text) (start : ℕ)
    → IsExempt (set_good_guy log ip start) ip (start + good_guy_duration)
unfolding set_good_guy
set_good_guy-IsExempt log ip start =
    let a = washed (or_new (lookup_ip log ip) start) start in
    (a, start + good_guy_duration, lookup_ip-set_ip log ip a, refl, omega arith)

-- An address that was let in is not taken for an attacker for ten minutes, whatever happens to it
-- and to other addresses from then on, as long as the log is not cleaned up.
pub is_bad_guy-happen :
    (log : AccessLog) (ip : Text) (start now : ℕ) (es : List Event)
    → All (λ e. start ≤ time e) es
    → now < start + good_guy_duration
    → is_bad_guy (happen (set_good_guy log ip start) es) ip now ≡ false
unfolding is_bad_guy
is_bad_guy-happen log ip start now es h lt =
    let first : IsExempt (set_good_guy log ip start) ip (start + good_guy_duration) =
      set_good_guy-IsExempt log ip start in
    let (a, end, found, good, le) =
      happen-IsExempt (set_good_guy log ip start) ip start es h first in
    rw (found, is_bad_guy)
      (if_on _ _ (in_good_period a.good_until now) (
        ap (λ o. in_good_period o now) good ∙ exempt_now end (start + good_guy_duration) now lt le))
