-- ===== src/Migrate/Loaded.antt =====
-- What loading accepts.
use devengine.Common.{
  ℕ, ◌≤◌, ◌≡◌, ◌≢◌, ◌⊎◌, refl, sym, false, none, some, List, [], ◌∷◌, ◌++◌, Memᴰ, Text, text_eq,
  text_eq_iff, str, trim_space, ltb, ◌==◌, ◌||◌, arith, if◌then◌else◌, any, any-false, Result, ok,
  err, ◌>>=◌, inl, inr, Bool-cases, Option-cases, Memᴰ-append_cases, Distinct, Distinct-append,
  none-some,
}
use devengine.Migrate.Files.{match_migration, parse_version}
use devengine.Migrate.Load.{
  Entry, Source, Migration, LoadError, validate_version, dir_or_dot, has_version, add_file,
  add_entry, add_entries, add_sources,
}

-- The version lies in the range of its source.
abbrev pub InRange : Migration → Type 0
InRange m =
    ((m.source ≡ str "engine") × (1 ≤ m.version) × (m.version ≤ 999))
    ⊎ ((m.source ≡ str "app") × (1000 ≤ m.version))

-- What loading keeps: versions are in range and distinct.
pub record IsLoaded (ms : List Migration) : Type 0 where
  pub in_range : (m : Migration) → Memᴰ m ms → InRange m
  pub distinct : Distinct (λ m. m.version) ms

validate_version-none :
    (kind : Text) (version : ℕ)
    → validate_version kind version ≡ none
    → ((kind ≡ str "engine") × (1 ≤ version) × (version ≤ 999))
      ⊎ ((kind ≡ str "app") × (1000 ≤ version))
unfolding validate_version
validate_version-none kind version h = elim (Bool-cases (text_eq kind (str "engine"))) [
  | inl p ↦ inl ((text_eq_iff _ _).0 p, low (rw p at h), high (rw p at h))
  | inr p ↦ elim (Bool-cases (text_eq kind (str "app"))) [
    | inl q ↦ inr ((text_eq_iff _ _).0 q, app (rw (p, q) at h))
    | inr q ↦ absurd (none-some (sym (rw (p, q) at h)))
  ]
]
  where
    low :
        (if ltb version 1 || ltb 999 version then some LoadError.engine_version else none) ≡ none
        → 1 ≤ version
    low z = ground arith

    high :
        (if ltb version 1 || ltb 999 version then some LoadError.engine_version else none) ≡ none
        → version ≤ 999
    high z = ground arith

    app : (if ltb version 1000 then some LoadError.app_version else none) ≡ none → 1000 ≤ version
    app z = ground arith

err_ok : {x : LoadError} {ms : List Migration} → err x ≡ ok ms → ⊥
err_ok z = cc

pub ok_eq :
    {ms ns : List Migration} → ◌≡◌ {A = Result LoadError (List Migration)} (ok ms) (ok ns) → ns ≡ ms
ok_eq z = cc

pub bind_value :
    (r : Result LoadError (List Migration)) (f : List Migration → Result LoadError (List Migration))
    (ns : List Migration)
    → (r >>= f) ≡ ok ns
    → (ms : List Migration) × (r ≡ ok ms) × (f ms ≡ ok ns)
bind_value (ok ms) f ns h = (ms, refl, h)
bind_value (err e) f ns h = absurd (err_ok h)

snoc-IsLoaded :
    (ms : List Migration) (m : Migration)
    → IsLoaded ms
    → InRange m
    → any (has_version m.version) ms ≡ false
    → IsLoaded (ms ++ m ∷ [])
snoc-IsLoaded ms m v r f = record {
  in_range = λ n k. elim (Memᴰ-append_cases ms (m ∷ []) k) [
    | inl old ↦ v.in_range n old
    | inr new ↦ elim new [ Memᴰ.head e ↦ rw e r | Memᴰ.tail t ↦ elim t [ ] ]
  ];
  distinct =
      Distinct-append (λ n. n.version) ms (m ∷ []) v.distinct ((λ y k. elim k [ ]), tt)
        (λ x y kx ky. apart x y kx ky);
}
  where
    differs : (x : Migration) → (x.version == m.version) ≡ false → m.version ≢ x.version
    differs x h e = ground arith

    apart : (x y : Migration) → Memᴰ x ms → Memᴰ y (m ∷ []) → y.version ≢ x.version
    apart x y kx (Memᴰ.head e) = rw e (differs x (any-false (has_version m.version) ms f kx))
    apart x y kx (Memᴰ.tail t) = elim t [ ]

module _ (checksum : Text → Text) where
  add_file-IsLoaded :
      (kind : Text) (entry : Entry) (name : Text) (version : ℕ) (ms ns : List Migration)
      → IsLoaded ms
      → add_file checksum kind entry name version ms ≡ ok ns
      → IsLoaded ns
  unfolding add_file
  add_file-IsLoaded kind entry name version ms ns v h =
      elim (Option-cases (validate_version kind version)) [
        | inr (e, p) ↦ absurd (err_ok (rw (p, add_file) at h))
        | inl p ↦ elim (Bool-cases (any (has_version version) ms)) [
          | inl q ↦ absurd (err_ok (rw (p, q, add_file) at h))
          | inr q ↦ with_body p q entry.body (rw (p, q, add_file) at h)
        ]
      ]
    where
      with_body :
          validate_version kind version ≡ none
          → any (has_version version) ms ≡ false
          → (b : Result Text Text)
          → ◌≡◌ {A = Result LoadError (List Migration)}
              (elim b [
                | err e ↦ err (LoadError.read_file entry.name e)
                | ok body ↦ ok (
                    ms
                    ++ record {
                      version = version;
                      name = name;
                      sql = body;
                      checksum = checksum body;
                      source = kind;
                    }
                      ∷ [])
              ])
              (ok ns)
          → IsLoaded ns
      with_body p q (err e) z = absurd (err_ok z)
      with_body p q (ok body) z =
          rw (ok_eq z) (snoc-IsLoaded ms _ v (validate_version-none kind version p) q)

  add_entry-IsLoaded :
      (kind : Text) (entry : Entry) (ms ns : List Migration)
      → IsLoaded ms
      → add_entry checksum kind entry ms ≡ ok ns
      → IsLoaded ns
  unfolding add_entry
  add_entry-IsLoaded kind entry ms ns v h = elim (Bool-cases entry.is_dir) [
    | inl p ↦ rw (ok_eq (rw p at h)) v
    | inr p ↦ elim (Option-cases (match_migration entry.name)) [
      | inl q ↦ rw (ok_eq (rw (p, q) at h)) v
      | inr ((digits, name), q) ↦ elim (Option-cases (parse_version digits)) [
        | inl r ↦ absurd (err_ok (rw (p, q, r) at h))
        | inr (version, r) ↦ add_file-IsLoaded kind entry name version ms ns v (rw (p, q, r) at h)
      ]
    ]
  ]

  add_entries-IsLoaded :
      (kind : Text) (entries : List Entry) (ms ns : List Migration)
      → IsLoaded ms
      → add_entries checksum kind entries ms ≡ ok ns
      → IsLoaded ns
  unfolding add_entries
  add_entries-IsLoaded kind [] ms ns v h = rw (ok_eq h) v
  add_entries-IsLoaded kind (entry ∷ entries) ms ns v h =
      let (mid, p, rest) =
        bind_value (add_entry checksum kind entry ms) (add_entries checksum kind entries) ns h in
      add_entries-IsLoaded kind entries mid ns (add_entry-IsLoaded kind entry ms mid v p) rest

  pub add_sources-IsLoaded :
      (sources : List Source) (ms ns : List Migration)
      → IsLoaded ms
      → add_sources checksum sources ms ≡ ok ns
      → IsLoaded ns
  unfolding add_sources
  add_sources-IsLoaded [] ms ns v h = rw (ok_eq h) v
  add_sources-IsLoaded (source ∷ sources) ms ns v h = elim (Option-cases source.read_dir) [
    | inl p ↦ add_sources-IsLoaded sources ms ns v (rw (p, add_sources) at h)
    | inr (read, p) ↦
        by_entries (λ ms' v' e. add_sources-IsLoaded sources ms' ns v' e)
          (read (dir_or_dot (trim_space source.dir))) (rw (p, add_sources) at h)
  ]
    where
      after_entries : List Entry → Result LoadError (List Migration)
      after_entries entries = do
        next ← add_entries checksum source.kind entries ms
        add_sources checksum sources next

      by_entries :
          ((ms' : List Migration)
            → IsLoaded ms'
            → add_sources checksum sources ms' ≡ ok ns
            → IsLoaded ns)
          → (r : Result Text (List Entry))
          → ◌≡◌ {A = Result LoadError (List Migration)}
              (elim r [
                | err e ↦ err (LoadError.read_source source.kind e)
                | ok entries ↦ after_entries entries
              ])
              (ok ns)
          → IsLoaded ns
      by_entries rest (err e) z = absurd (err_ok z)
      by_entries rest (ok entries) z =
          let (mid, p, last) =
            bind_value (add_entries checksum source.kind entries ms) (add_sources checksum sources)
              ns z in
          rest mid (add_entries-IsLoaded source.kind entries ms mid v p) last
