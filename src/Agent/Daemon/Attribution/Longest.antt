-- ===== src/Agent/Daemon/Attribution/Longest.antt =====
-- A transcript belongs to the app with the deepest directory around it.
use breakerbox.Prelude.{
  ℕ, ◌≤◌, ◌<◌, String, true, false, List, [], ◌∷◌, ◌++◌, ◌≡◌, ◌⊎◌, inl, inr, refl, sym, ap, ◌∙◌,
  subst, arith, ltb, str_eq, length, Bool-cases, Any, ◌↔◌,
}
use mathlib.Core.List.{append_assoc}
use breakerbox.Prelude.Dict.{AllEntries, Dict}
use breakerbox.Agent.Daemon.State.{AppState}
use breakerbox.Agent.Daemon.Attribution.{
  Best, Paths, better, consider, consider_all, has_prefix, is_inside, resolve_app_by_cwd, resolved,
  same_bytes, separator,
}

-- The path is the directory, or a path in it.
abbrev pub Inside : List ℕ → List ℕ → Type 0
Inside cwd dir = (cwd ≡ dir) ⊎ (rest : List ℕ) × (cwd ≡ dir ++ separator ∷ rest)

same_bytes-eq : (s t : List ℕ) → same_bytes s t ≡ true → s ≡ t
unfolding same_bytes
same_bytes-eq [] [] h = refl
same_bytes-eq [] (c ∷ t) h = cc
same_bytes-eq (c ∷ s) [] h = cc
same_bytes-eq (c ∷ s) (d ∷ t) h =
    let head : c ≡ d = ground arith in let tail = same_bytes-eq s t (ground arith) in cc

same_bytes_refl : (s : List ℕ) → same_bytes s s ≡ true
unfolding same_bytes
same_bytes_refl [] = refl
same_bytes_refl (c ∷ s) = ground (arith, same_bytes_refl s)

has_prefix-append : (p s : List ℕ) → has_prefix p (p ++ s) ≡ true
unfolding has_prefix
has_prefix-append [] s = refl
has_prefix-append (c ∷ p) s = ground (arith, has_prefix-append p s)

has_prefix-rest : (p s : List ℕ) → has_prefix p s ≡ true → (rest : List ℕ) × (s ≡ p ++ rest)
unfolding has_prefix
has_prefix-rest [] s h = (s, refl)
has_prefix-rest (c ∷ p) [] h = cc
has_prefix-rest (c ∷ p) (d ∷ s) h =
    let head : c ≡ d = ground arith in
    let (rest, e) = has_prefix-rest p s (ground arith) in (rest, cc)

is_inside-Inside : (cwd dir : List ℕ) → (is_inside cwd dir ≡ true) ↔ Inside cwd dir
unfolding is_inside
is_inside-Inside cwd dir = (
  λ h. elim (Bool-cases (same_bytes cwd dir)) [
    | inl same ↦ inl (same_bytes-eq cwd dir same)
    | inr other ↦
        let (rest, e) = has_prefix-rest (dir ++ separator ∷ []) cwd (ground arith) in
        inr (rest, e ∙ append_assoc dir (separator ∷ []) rest)
  ],
  λ h. elim h [
    | inl e ↦
        let same : same_bytes cwd dir ≡ true =
          subst (λ d. same_bytes cwd d ≡ true) e (same_bytes_refl cwd) in
        ground arith
    | inr (rest, e) ↦
        let whole : cwd ≡ (dir ++ separator ∷ []) ++ rest =
          e ∙ sym (append_assoc dir (separator ∷ []) rest) in
        let prefix : has_prefix (dir ++ separator ∷ []) cwd ≡ true =
          subst (λ c. has_prefix (dir ++ separator ∷ []) c ≡ true) (sym whole)
            (has_prefix-append (dir ++ separator ∷ []) rest) in
        ground arith
  ],
)

module _ (p : Paths) (cwd : List ℕ) where
  abbrev dir_of : AppState → List ℕ
  dir_of app = resolved p (p.bytes app.definition.cwd)

  -- The app has a directory of this size, and the path is inside.
  abbrev pub Around : ℕ → AppState → Type 0
  Around n app =
      (str_eq app.definition.cwd "" ≡ false)
      × Inside cwd (resolved p (p.bytes app.definition.cwd))
      × (length (resolved p (p.bytes app.definition.cwd)) ≡ n)

  -- The app has no directory, or one that the path is not inside, or one of at most this size.
  abbrev pub Beaten : ℕ → AppState → Type 0
  Beaten n app =
      (str_eq app.definition.cwd "" ≡ true)
      ⊎ (¬ Inside cwd (resolved p (p.bytes app.definition.cwd)))
      ⊎ (length (resolved p (p.bytes app.definition.cwd)) ≤ n)

  Beaten-more : (m n : ℕ) (app : AppState) → m ≤ n → Beaten m app → Beaten n app
  Beaten-more m n app le (inl empty) = inl empty
  Beaten-more m n app le (inr (inl outside)) = inr (inl outside)
  Beaten-more m n app le (inr (inr short)) = inr (inr (omega (arith, le, short)))

  record Considered (b : Best) (id : String) (app : AppState) (c : Best) : Type 0 where
    grows : b.size ≤ c.size
    beaten : Beaten c.size app
    kept_or_found : (c ≡ b) ⊎ (b.size < c.size) × (id ≡ c.app) × Around c.size app

  consider-Considered :
      (b : Best) (id : String) (app : AppState) → Considered b id app (consider p cwd b id app)
  unfolding consider better
  consider-Considered b id app = elim (Bool-cases (str_eq app.definition.cwd "")) [
    | inl empty ↦
        rw empty (record { grows = omega arith; beaten = inl empty; kept_or_found = inl refl })
    | inr some_dir ↦ elim (Bool-cases (is_inside cwd (dir_of app))) [
      | inr out ↦
          rw (some_dir, out)
            (record {
              grows = omega arith;
              beaten =
                  inr (inl (λ h. absurd (ground (arith, (is_inside-Inside cwd (dir_of app)).1 h))));
              kept_or_found = inl refl;
            })
      | inl inside ↦ elim (Bool-cases (ltb b.size (length (dir_of app)))) [
        | inl longer ↦
            rw (some_dir, inside, longer)
              (record {
                grows = ground arith;
                beaten = inr (inr (omega arith));
                kept_or_found = inr (
                  ground arith,
                  refl,
                  (some_dir, (is_inside-Inside cwd (dir_of app)).0 inside, refl),
                );
              })
        | inr short ↦
            rw (some_dir, inside, short)
              (record {
                grows = omega arith;
                beaten = inr (inr (ground arith));
                kept_or_found = inl refl;
              })
      ]
    ]
  ]

  record Scanned (b : Best) (apps : Dict AppState) (c : Best) : Type 0 where
    grows : b.size ≤ c.size
    beaten : AllEntries (λ id app. Beaten c.size app) apps
    kept_or_found :
        (c ≡ b)
        ⊎ (b.size < c.size)
          × Any (λ (e : String × AppState). (e.0 ≡ c.app) × Around c.size e.1) apps

  consider_all-Scanned :
      (b : Best) (apps : Dict AppState) → Scanned b apps (consider_all p cwd b apps)
  unfolding consider_all
  consider_all-Scanned b [] = record { grows = omega arith; beaten = tt; kept_or_found = inl refl }
  consider_all-Scanned b ((id, app) ∷ apps) =
      let b1 = consider p cwd b id app in
      let c = consider_all p cwd b1 apps in
      let first = consider-Considered b id app in
      let later = consider_all-Scanned b1 apps in
      record {
        grows = omega (arith, first.grows, later.grows);
        beaten = (Beaten-more b1.size c.size app later.grows first.beaten, later.beaten);
        kept_or_found = elim later.kept_or_found [
          | inr (more, found) ↦ inr (omega (arith, first.grows, more), inr found)
          | inl same ↦ elim first.kept_or_found [
            | inl still ↦ inl (same ∙ still)
            | inr (more, name, around) ↦ inr (
              subst (λ (x : Best). b.size < x.size) (sym same) more,
              inl (
                  subst (λ (x : Best). (id ≡ x.app) × Around x.size app) (sym same) (name, around)),
            )
          ]
        ];
      }

-- Whatever the order in which the loop meets the apps, a transcript in a directory goes to an app whose
-- directory, with its links followed, is the same or around it, and no app has a longer one around it;
-- it goes to no app if no app has a directory around it.
pub resolve-Deepest :
    (p : Paths) (apps : Dict AppState) (cwd : String)
    → str_eq cwd "" ≡ false
    → let at = resolved p (p.bytes cwd) in
      let id = resolve_app_by_cwd p apps cwd in
      (n : ℕ) × AllEntries (λ j app. Beaten p at n app) apps
      × (((n ≡ 0) × (id ≡ ""))
          ⊎ (0 < n) × Any (λ (e : String × AppState). (e.0 ≡ id) × Around p at n e.1) apps)
unfolding resolve_app_by_cwd
resolve-Deepest p apps cwd named =
    let at = resolved p (p.bytes cwd) in
    let none_yet : Best = record { app = ""; size = 0 } in
    let c = consider_all p at none_yet apps in
    let scan = consider_all-Scanned p at none_yet apps in
    rw named (
      c.size,
      scan.beaten,
      elim scan.kept_or_found [
        | inl same ↦ inl (ap (λ (x : Best). x.size) same, ap (λ (x : Best). x.app) same)
        | inr found ↦ inr found
      ],
    )
