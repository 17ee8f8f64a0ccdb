-- ===== src/Clientip/Configured.antt =====
-- What a resolver that `New` accepts holds.
use mathlib.Core.List.{append-nil, append_assoc}
use devengine.Common.{
  ◌≡◌, ◌≢◌, refl, sym, ap, ◌∙◌, subst, ◌==◌, Bool, true, false, Option, none, some, List, [], ◌∷◌,
  ◌++◌, map, Text, any, length, trim_space, Result, ok, ok-eq, err-eq-ok, bind_passed, Bool-cases,
  Option-cases, inl, inr, true-false,
}
use devengine.Clientip.Prefix.{Prefix, parse_prefix, masked, prefix_eq}
use devengine.Clientip.Headers.{Header, forwarded, x_forwarded_for, x_real_ip, cf_connecting_ip}
use devengine.Clientip.Resolve.{
  Resolver, ClientipError, header_eq, supported_header, read_cidr, read_header, read_all, new,
}

header_eq_refl : (h : Header) → header_eq h h ≡ true
unfolding header_eq
header_eq_refl forwarded = refl
header_eq_refl x_forwarded_for = refl
header_eq_refl x_real_ip = refl
header_eq_refl cf_connecting_ip = refl

abbrev pub header_of : Text → Option Header
header_of raw = supported_header (trim_space raw)

abbrev masked_some : Option Prefix → Option Prefix
masked_some none = none
masked_some (some p) = some (masked p)

abbrev pub prefix_of : Text → Option Prefix
prefix_of raw = masked_some (parse_prefix (trim_space raw))

-- A setting that is read appends what its text stands for, which was not there.
data Appended {A : Type 0} (same : A → A → Bool) (value : Text → Option A) (raw : Text)
    (before : List A) : List A → Type 0 where
  appended :
      (a : A)
      → value raw ≡ some a
      → any (same a) before ≡ false
      → Appended same value raw before (before ++ a ∷ [])

read_header-Appended :
    (raw : Text) (before after : List Header)
    → read_header raw before ≡ ok after
    → Appended header_eq header_of raw before after
unfolding read_header
read_header-Appended raw before after h = elim (Option-cases (supported_header (trim_space raw))) [
  | inl e ↦ absurd (err-eq-ok (rw (e, read_header) at h))
  | inr (a, e) ↦ elim (Bool-cases (any (header_eq a) before)) [
    | inl d ↦ absurd (err-eq-ok (rw d at (rw (e, read_header) at h)))
    | inr d ↦
        subst (Appended header_eq header_of raw before) (ok-eq (rw d at (rw (e, read_header) at h)))
          (appended a e d)
  ]
]

read_cidr-Appended :
    (raw : Text) (before after : List Prefix)
    → read_cidr raw before ≡ ok after
    → Appended prefix_eq prefix_of raw before after
unfolding read_cidr
read_cidr-Appended raw before after h = elim (Option-cases (parse_prefix (trim_space raw))) [
  | inl e ↦ absurd (err-eq-ok (rw (e, read_cidr) at h))
  | inr (p, e) ↦ elim (Bool-cases (any (prefix_eq (masked p)) before)) [
    | inl d ↦ absurd (err-eq-ok (rw d at (rw (e, read_cidr) at h)))
    | inr d ↦
        subst (Appended prefix_eq prefix_of raw before) (ok-eq (rw d at (rw (e, read_cidr) at h)))
          (appended (masked p) (ap masked_some e) d)
  ]
]

-- No member is the same as one before it.
abbrev pub Apart : {A : Type 0} → (A → A → Bool) → List A → List A → Type 0
Apart same before [] = Unit
Apart same before (a ∷ rest) = (any (same a) before ≡ false) × Apart same (before ++ a ∷ []) rest

module _ {A : Type 0} (same : A → A → Bool) (value : Text → Option A)
    (read : Text → List A → Result ClientipError (List A))
    (step : (raw : Text) (before after : List A)
      → read raw before ≡ ok after
      → Appended same value raw before after) where
  read_all-Apart :
      (raws : List Text) (before after : List A)
      → read_all read raws before ≡ ok after
      → (added : List A) × (after ≡ before ++ added)
        × (map value raws ≡ map some added)
        × Apart same before added
  unfolding read_all
  read_all-Apart [] before after h = ([], sym (ok-eq h) ∙ sym (append-nil before), refl, tt)
  read_all-Apart (raw ∷ raws) before after h =
      let (mid, p, q) = bind_passed (read_all read raws) (read raw before) h in
      behind mid (step raw before mid p) (read_all-Apart raws mid after q)
    where
      behind :
          (mid : List A)
          → Appended same value raw before mid
          → (added : List A) × (after ≡ mid ++ added)
            × (map value raws ≡ map some added)
            × Apart same mid added
          → (added : List A) × (after ≡ before ++ added)
            × (map value (raw ∷ raws) ≡ map some added)
            × Apart same before added
      behind mid (appended a e d) (added, p, q, r) = (
        a ∷ added,
        p ∙ append_assoc before (a ∷ []) added,
        ap (λ o. o ∷ map value raws) e ∙ ap (λ l. some a ∷ l) q,
        (d, r),
      )

-- A resolver with the settings that the texts spell.
pub record IsConfigured (trusted_cidrs priority : List Text) (r : Resolver) : Type 0 where
  pub some_header : r.priority ≢ []
  pub headers : map header_of priority ≡ map some r.priority
  pub headers_apart : Apart header_eq [] r.priority
  pub prefixes : map prefix_of trusted_cidrs ≡ map some r.trusted
  pub prefixes_apart : Apart prefix_eq [] r.trusted

-- A resolver is accepted only with a header, when every text spells a supported header or a
-- network; it then holds these headers in the given order and the masked networks, none of them
-- twice.
pub new-IsConfigured :
    (trusted_cidrs priority : List Text) (r : Resolver)
    → new trusted_cidrs priority ≡ ok r
    → IsConfigured trusted_cidrs priority r
unfolding new
new-IsConfigured trusted_cidrs priority r h = elim (Bool-cases (length priority == 0)) [
  | inl e ↦ absurd (err-eq-ok (rw e at h))
  | inr e ↦
      let (trusted, p, rest) = bind_passed _ (read_all read_cidr trusted_cidrs []) (rw e at h) in
      let (headers, q, last) = bind_passed _ (read_all read_header priority []) rest in
      let (ts, t1, t2, t3) =
        read_all-Apart prefix_eq prefix_of read_cidr read_cidr-Appended trusted_cidrs [] trusted
          p in
      let (hs, h1, h2, h3) =
        read_all-Apart header_eq header_of read_header read_header-Appended priority [] headers q in
      configured ts hs (not_nil priority hs e h2) t2 t3 h2 h3 (
        sym (ok-eq last)
        ∙ ap (λ l. record { trusted = l; priority = headers }) t1
        ∙ ap (λ l. record { trusted = ts; priority = l }) h1)
]
  where
    not_nil :
        (raws : List Text) (hs : List Header)
        → (length raws == 0) ≡ false
        → map header_of raws ≡ map some hs
        → hs ≢ []
    not_nil [] hs e m = absurd (true-false e)
    not_nil (raw ∷ raws) [] e m = absurd (cc)
    not_nil (raw ∷ raws) (a ∷ hs) e m = λ z. cc

    configured :
        (ts : List Prefix) (hs : List Header)
        → hs ≢ []
        → map prefix_of trusted_cidrs ≡ map some ts
        → Apart prefix_eq [] ts
        → map header_of priority ≡ map some hs
        → Apart header_eq [] hs
        → r ≡ record { trusted = ts; priority = hs }
        → IsConfigured trusted_cidrs priority r
    configured ts hs n t2 t3 h2 h3 z = subst (IsConfigured trusted_cidrs priority) (sym z) (record {
      some_header = n;
      headers = h2;
      headers_apart = h3;
      prefixes = t2;
      prefixes_apart = t3;
    })
