-- ===== src/Schemas/Checks.antt =====
-- packages/core/src/elicitation-schema.ts: what the checks of texts, numbers and lists accept.
use mathlib.Core.Path.{subst}
use zooid.Dict.{get}
use zooid.Json.{
  Items, arr, as_number, as_text, bool, cons, elements, items_of, nil, null, num, obj, str,
}
use zooid.Prelude.{
  Bool, Distinct, List, Option, Option-cases, String, String-cases, [], any, ap, arith, default,
  eq_iff, false, if◌then◌else◌, includes, inl, inr, none, not, refl, some, sym, true, ◌&&◌, ◌==◌,
  ◌↔◌, ◌∙◌, ◌∷◌, ◌≡◌,
}
use zooid.Schemas.{
  Host, Prop, all_texts, breaks_format, breaks_pattern, check_items, check_number, check_text,
  choices_of, format_test, is_type, misses, over, repeats, under,
}
use zooid.Schemas.Fits.{ItemsFit, Listed, NumberFits, TextFits, Within, here, there}
use zooid.Texts.{units}

Listed-includes : {s : String} {ss : List String} → Listed s ss → includes s ss ≡ true
Listed-includes {s} here = ground (arith, eq_iff s s)
Listed-includes {s} (there {x} m) = ground (arith, Listed-includes m, eq_iff x s)

includes-Listed : (s : String) (ss : List String) → includes s ss ≡ true → Listed s ss
includes-Listed s [] h = absurd (ground arith)
includes-Listed s (x ∷ ss) h = elim (String-cases x s) [
  | inl e ↦ subst (λ y. Listed s (y ∷ ss)) (sym e) here
  | inr e ↦ there (includes-Listed s ss (ground arith))
]

Listed-or :
    {x : String} {ss cs : List String} (s : String)
    → Listed s (x ∷ ss)
    → Listed x cs
    → ((s : String) → Listed s ss → Listed s cs)
    → Listed s cs
Listed-or s here first later = first
Listed-or s (there m) first later = later s m

pub not-false : (b : Bool) → not b ≡ false → b ≡ true
not-false true h = refl
not-false false h = cc

-- One test of a chain: no error comes out when it passes and the rest reports none.
reports_none :
    (test : Bool) (error : String) (rest : Option String)
    → (if test then some error else rest) ≡ none
    → (test ≡ false) × (rest ≡ none)
reports_none true error rest h = cc
reports_none false error rest h = (refl, h)

repeats-Distinct : (ss : List String) → (repeats ss ≡ false) ↔ Distinct ss
unfolding repeats
repeats-Distinct [] = (λ h. tt, λ h. refl)
repeats-Distinct (s ∷ ss) = (
  λ h. (ground arith, (repeats-Distinct ss).0 (ground arith)),
  λ h. ground (arith, (repeats-Distinct ss).1 h.1),
)

-- Every element passes the choices' test exactly if it is listed among them.
offers :
    (cs ss : List String)
    → (any (λ x. not (includes x cs)) ss ≡ false) ↔ ((s : String) → Listed s ss → Listed s cs)
offers cs [] = (λ h s m. elim m [ ], λ h. refl)
offers cs (x ∷ ss) = (
  λ h s m. Listed-or s m (includes-Listed x cs (ground arith)) ((offers cs ss).0 (ground arith)),
  λ h. ground (arith, Listed-includes (h x here), (offers cs ss).1 (λ s m. h s (there m))),
)

module _ {N : Type 0} (host : Host N) where
  within-tests :
      (low high : Option N) (n : N)
      → Within host low high n
      → (under host low n ≡ false) × (over host high n ≡ false)
  within-tests none none n w = (refl, refl)
  within-tests none (some m) n w = (refl, w.below m refl)
  within-tests (some m) none n w = (w.above m refl, refl)
  within-tests (some m) (some k) n w = (w.above m refl, w.below k refl)

  tests-within :
      (low high : Option N) (n : N)
      → under host low n ≡ false
      → over host high n ≡ false
      → Within host low high n
  tests-within low high n a b = record {
    above = λ m e. subst (λ o. under host o n ≡ false) e a;
    below = λ m e. subst (λ o. over host o n ≡ false) e b;
  }

  text_tests :
      (p : Prop N) (s : String)
      → check_text host p s ≡ none
        ↔ (misses (choices_of p) s ≡ false)
          × (under host (as_number (get "minLength" p)) (host.of_count (units s)) ≡ false)
          × (over host (as_number (get "maxLength" p)) (host.of_count (units s)) ≡ false)
          × (breaks_pattern host (as_text (get "pattern" p)) s ≡ false)
          × (breaks_format host (as_text (get "format" p)) s ≡ false)
  unfolding check_text
  text_tests p s = (
    λ h.
        let (chosen, h) = reports_none _ _ _ h in
        let (long, h) = reports_none _ _ _ h in
        let (short, h) = reports_none _ _ _ h in
        let (matched, h) = reports_none _ _ _ h in
        (chosen, long, short, matched, (reports_none _ _ _ h).0),
    λ h. rw (h.0, h.1, h.2, h.3, h.4) refl,
  )

  misses-Listed :
      (o : Option (List String)) (s : String)
      → misses o s ≡ false ↔ ((cs : List String) → o ≡ some cs → Listed s cs)
  misses-Listed none s = (λ h cs e. cc, λ h. refl)
  misses-Listed (some cs) s = (
    λ h ds e. subst (λ o. Listed s (default o [])) e (includes-Listed s cs (ground arith)),
    λ h. rw (Listed-includes (h cs refl)) refl,
  )

  breaks_pattern-matched :
      (o : Option String) (s : String)
      → breaks_pattern host o s ≡ false ↔ (
          (r : String)
          → o ≡ some r
          → (test : String → Bool) × (host.reg_exp r ≡ some test) × (test s ≡ true))
  breaks_pattern-matched none s = (λ h r e. cc, λ h. refl)
  breaks_pattern-matched (some r) s = (
    λ h q e. elim (Option-cases (host.reg_exp q)) [
      | inl gone ↦ absurd (ground arith)
      | inr (test, found) ↦ (test, found, ground arith)
    ],
    λ h. let (test, found, passed) = h r refl in ground arith,
  )

  breaks_format-tested :
      (o : Option String) (s : String)
      → breaks_format host o s ≡ false ↔ (
          (f : String) (test : String → Bool)
          → o ≡ some f
          → format_test host f ≡ some test
          → test s ≡ true)
  breaks_format-tested none s = (λ h f test e. cc, λ h. refl)
  breaks_format-tested (some f) s = (
    λ h g test e found. ground arith,
    λ h. elim (Option-cases (format_test host f)) [
      | inl gone ↦ rw gone refl
      | inr (test, found) ↦ let passed = h f test refl found in ground arith
    ],
  )

  pub check_text-Fits : (p : Prop N) (s : String) → (check_text host p s ≡ none) ↔ TextFits host p s
  check_text-Fits p s = (
    λ h.
        let tests = (text_tests p s).0 h in
        record {
          chosen = (misses-Listed _ s).0 tests.0;
          sized = tests-within _ _ _ tests.1 tests.2;
          matched = (breaks_pattern-matched _ s).0 tests.3;
          formatted = (breaks_format-tested _ s).0 tests.4;
        },
    λ f.
        let (low, high) = within-tests _ _ _ f.sized in
        (text_tests p s).1 (
          (misses-Listed _ s).1 f.chosen,
          low,
          high,
          (breaks_pattern-matched _ s).1 f.matched,
          (breaks_format-tested _ s).1 f.formatted,
        ),
  )

  pub check_items-Fits :
      (p : Prop N) (ss : List String) → (check_items host p ss ≡ none) ↔ ItemsFit host p ss
  unfolding check_items
  check_items-Fits p ss = (
    λ h.
        let (offered, h) = reports_none _ _ _ h in
        let (distinct, h) = reports_none _ _ _ h in
        let (long, h) = reports_none _ _ _ h in
        let (short, h) = reports_none _ _ _ h in
        record {
          offered = (offers _ ss).0 offered;
          distinct = (repeats-Distinct ss).0 distinct;
          counted = tests-within _ _ _ long short;
        },
    λ f.
        let (low, high) = within-tests _ _ _ f.counted in
        rw ((offers _ ss).1 f.offered, (repeats-Distinct ss).1 f.distinct, low, high) refl,
  )

  number_tests :
      (p : Prop N) (n : N)
      → (under host (as_number (get "minimum" p)) n ≡ false)
          × (over host (as_number (get "maximum" p)) n ≡ false)
        ↔ Within host (as_number (get "minimum" p)) (as_number (get "maximum" p)) n
  number_tests p n = (λ t. tests-within _ _ n t.0 t.1, within-tests _ _ n)

  pub check_number-Fits :
      (p : Prop N) (whole : Bool) (n : N)
      → (check_number host p whole (some (num n)) ≡ none)
        ↔ ((whole && not (host.is_integer n) ≡ false) × NumberFits host p n)
  unfolding check_number
  check_number-Fits p whole n = (
    λ h.
        let (finite, h) = reports_none _ _ _ h in
        let (integral, h) = reports_none _ _ _ h in
        let (low, h) = reports_none _ _ _ h in
        let (high, h) = reports_none _ _ _ h in
        (integral, record { finite = not-false _ finite; ranged = tests-within _ _ n low high }),
    λ f. let (low, high) = within-tests _ _ _ f.1.ranged in rw (f.1.finite, f.0, low, high) refl,
  )

-- A property has one type.
pub is_type_other :
    {N : Type 0} (s t : String) (p : Prop N)
    → is_type s p ≡ true
    → (s == t) ≡ false
    → is_type t p ≡ false
unfolding is_type
is_type_other s t p h d = elim (Option-cases (as_text (get "type" p))) [
  | inl gone ↦ rw (gone, is_type) refl
  | inr (u, found) ↦ rw (found, is_type) (ground (arith, eq_iff u s, eq_iff u t, eq_iff s t, found))
]

pub all_texts-items_of :
    (N : Type 0) (ss : List String) → all_texts {N = N} (elements (items_of ss)) ≡ some ss
unfolding all_texts elements
all_texts-items_of N [] = refl
all_texts-items_of N (s ∷ ss) = rw (all_texts-items_of N ss) refl

module _ {N : Type 0} where
  pub items_of-all_texts :
      (xs : Items N) {ss : List String} → all_texts (elements xs) ≡ some ss → xs ≡ items_of ss
  unfolding all_texts elements
  items_of-all_texts nil h = ap (λ o. items_of (default o [])) h
  items_of-all_texts (cons (str s) xs) {ss = ss} h = elim (Option-cases (all_texts (elements xs))) [
    | inl gone ↦ absurd (ground arith)
    | inr (ts, found) ↦
        let whole : some (s ∷ ts) ≡ some ss = rw found at h in
        ap (cons (str s)) (items_of-all_texts xs found) ∙ ap (λ o. items_of (default o [])) whole
  ]
  items_of-all_texts (cons null xs) h = cc
  items_of-all_texts (cons (bool b) xs) h = cc
  items_of-all_texts (cons (num n) xs) h = cc
  items_of-all_texts (cons (arr a) xs) h = cc
  items_of-all_texts (cons (obj o) xs) h = cc
