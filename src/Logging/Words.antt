-- ===== src/Logging/Words.antt =====
-- About the levels and the silent paths of logging_config.py, told without its functions.
use feedgate_fetcher.Prelude.{
  ℕ, ◌+◌, ◌≤◌, ◌≡◌, ◌∙◌, refl, sym, ap, subst, List, [], ◌∷◌, ◌++◌, true, false, ◌&&◌, ◌==◌, ==_iff,
  ◌⊎◌, ◌≢◌, inl, inr, any, not, if◌then◌else◌, leb, ◌-◌, All, Bool-cases, arith,
}
use feedgate_fetcher.Prelude.Texts.{codes, codes_eq}
use feedgate_fetcher.Prelude.Equal.{codes_eq_lem}
use feedgate_fetcher.Prelude.Every.{All-both}
use feedgate_fetcher.Prelude.Find.{find}
use feedgate_fetcher.Logging.{upper, level_of, is_prefix, contains, silent_path_passes}

-- The text is the word, a word in capitals, in whatever case each of its letters is.
pub data Spells : List ℕ → List ℕ → Type 0 where
  nothing : Spells [] []
  capital : {s t : List ℕ} (c : ℕ) → 65 ≤ c → c ≤ 90 → Spells s t → Spells (c ∷ s) (c ∷ t)
  small : {s t : List ℕ} (c : ℕ) → 65 ≤ c → c ≤ 90 → Spells s t → Spells ((c + 32) ∷ s) (c ∷ t)

-- the words that `logging` knows a level by
abbrev pub words : List (List ℕ)
words =
    codes "CRITICAL"
    ∷ codes "FATAL"
    ∷ codes "ERROR"
    ∷ codes "WARNING"
    ∷ codes "WARN"
    ∷ codes "INFO"
    ∷ codes "DEBUG"
    ∷ codes "NOTSET"
    ∷ []

-- The level that a text names: that of its word, and INFO where it is no such word. Two attributes of
-- `logging` are written in capitals and are no levels; `setLevel` refuses them.
pub data IsLevel (s : List ℕ) : ℕ → Type 0 where
  critical : Spells s (codes "CRITICAL") → IsLevel s 50
  fatal : Spells s (codes "FATAL") → IsLevel s 50
  error : Spells s (codes "ERROR") → IsLevel s 40
  warning : Spells s (codes "WARNING") → IsLevel s 30
  warn : Spells s (codes "WARN") → IsLevel s 30
  info : Spells s (codes "INFO") → IsLevel s 20
  debug : Spells s (codes "DEBUG") → IsLevel s 10
  notset : Spells s (codes "NOTSET") → IsLevel s 0
  unknown :
      All (λ word. ¬ Spells s word) words
      → upper s ≢ codes "BASIC_FORMAT"
      → upper s ≢ codes "_STYLES"
      → IsLevel s 20

upper-Spells : {s t : List ℕ} → Spells s t → upper s ≡ t
upper-Spells nothing = refl
upper-Spells (capital {s} {t} c h k m) =
    let same : (if leb 97 c && leb c 122 then c - 32 else c) ≡ c = ground (arith, h, k) in
    ap (λ x. x ∷ upper s) same ∙ ap (◌∷◌ c) (upper-Spells m)
upper-Spells (small {s} {t} c h k m) =
    let same : (if leb 97 (c + 32) && leb (c + 32) 122 then c + 32 - 32 else c + 32) ≡ c =
      ground (arith, h, k) in
    ap (λ x. x ∷ upper s) same ∙ ap (◌∷◌ c) (upper-Spells m)

abbrev IsCapital : ℕ → Type 0
IsCapital c = (65 ≤ c) × (c ≤ 90)

upper-back : (s t : List ℕ) → All IsCapital t → upper s ≡ t → Spells s t
upper-back [] [] h e = nothing
upper-back [] (c ∷ t) h e = cc
upper-back (d ∷ s) [] h e = cc
upper-back (d ∷ s) (c ∷ t) h e =
    let first : (if leb 97 d && leb d 122 then d - 32 else d) ≡ c = cc e in
    let rest = upper-back s t h.1 (cc e) in
    elim (Bool-cases (leb 97 d && leb d 122)) [
      | inl k ↦
          let same : c + 32 ≡ d = ground (arith, first, k) in
          subst (λ x. Spells (x ∷ s) (c ∷ t)) same (small c h.0.0 h.0.1 rest)
      | inr k ↦
          let same : c ≡ d = ground (arith, first, k) in
          subst (λ x. Spells (x ∷ s) (c ∷ t)) same (capital c h.0.0 h.0.1 rest)
    ]

other_word :
    (s word : List ℕ) → All IsCapital word → ¬ Spells s word → codes_eq word (upper s) ≡ false
other_word s word h n = elim (Bool-cases (codes_eq word (upper s))) [
  | inl e ↦ absurd (n (upper-back s word h (sym (codes_eq_lem word (upper s) e))))
  | inr e ↦ e
]

letters : (word : List ℕ) → any (λ c. not (leb 65 c && leb c 90)) word ≡ false → All IsCapital word
unfolding any
letters [] e = tt
letters (c ∷ word) e =
    let rest : any (λ c. not (leb 65 c && leb c 90)) word ≡ false = ground (arith, e) in
    ((ground (arith, e), ground (arith, e)), letters word rest)

capitals : All (All IsCapital) words
capitals = (
  letters (codes "CRITICAL") (unfold any in refl),
  (
    letters (codes "FATAL") (unfold any in refl),
    (
      letters (codes "ERROR") (unfold any in refl),
      (
        letters (codes "WARNING") (unfold any in refl),
        (
          letters (codes "WARN") (unfold any in refl),
          (
            letters (codes "INFO") (unfold any in refl),
            (
              letters (codes "DEBUG") (unfold any in refl),
              (letters (codes "NOTSET") (unfold any in refl), tt),
            ),
          ),
        ),
      ),
    ),
  ),
)

pub level_of-IsLevel : {s : List ℕ} {n : ℕ} → IsLevel s n → level_of s ≡ n
unfolding level_of find
level_of-IsLevel (critical m) = rw (level_of, upper-Spells m) refl
level_of-IsLevel (fatal m) = rw (level_of, upper-Spells m) refl
level_of-IsLevel (error m) = rw (level_of, upper-Spells m) refl
level_of-IsLevel (warning m) = rw (level_of, upper-Spells m) refl
level_of-IsLevel (warn m) = rw (level_of, upper-Spells m) refl
level_of-IsLevel (info m) = rw (level_of, upper-Spells m) refl
level_of-IsLevel (debug m) = rw (level_of, upper-Spells m) refl
level_of-IsLevel (notset m) = rw (level_of, upper-Spells m) refl
level_of-IsLevel {s} (unknown h basic_format styles) =
    let (a, (b, (c, (d, (e, (f, (g, (i, _)))))))) =
      All-both (λ word n k. other_word s word k n) words h capitals in
    rw (level_of, a, b, c, d, e, f, g, i) refl

-- the path stands somewhere in the message
abbrev pub Names : List ℕ → List ℕ → Type 0
Names path msg = (before : List ℕ) × (after : List ℕ) × (msg ≡ before ++ (path ++ after))

-- a request of the probe, or of the scrape
abbrev pub IsSilent : List ℕ → Type 0
IsSilent msg = Names (codes "/healthz") msg ⊎ Names (codes "/metrics") msg

prefix-append : (part after : List ℕ) → is_prefix part (part ++ after) ≡ true
unfolding is_prefix
prefix-append [] after = refl
prefix-append (c ∷ part) after = rw ((==_iff c c).1 refl) (prefix-append part after)

contains-prefix : (part s : List ℕ) → is_prefix part s ≡ true → contains part s ≡ true
unfolding contains
contains-prefix part [] e = e
contains-prefix part (c ∷ s) e = rw e refl

contains-append : (part before after : List ℕ) → contains part (before ++ (part ++ after)) ≡ true
unfolding contains
contains-append part [] after = contains-prefix part (part ++ after) (prefix-append part after)
contains-append part (c ∷ before) after = ground (arith, contains-append part before after)

prefix-Names : (part s : List ℕ) → is_prefix part s ≡ true → (after : List ℕ) × (s ≡ part ++ after)
unfolding is_prefix
prefix-Names [] s e = (s, refl)
prefix-Names (c ∷ part) [] e = cc
prefix-Names (c ∷ part) (d ∷ s) e = elim (Bool-cases (c == d)) [
  | inl k ↦
      let (after, h) = prefix-Names part s (rw k at e) in
      (after, ap (λ x. x ∷ s) (sym ((==_iff c d).0 k)) ∙ ap (◌∷◌ c) h)
  | inr k ↦ let e' = rw k at e in absurd (cc e')
]

contains-Names : (part s : List ℕ) → contains part s ≡ true → Names part s
unfolding contains
contains-Names part [] e = let (after, h) = prefix-Names part [] e in ([], after, h)
contains-Names part (c ∷ s) e = elim (Bool-cases (is_prefix part (c ∷ s))) [
  | inl k ↦ let (after, h) = prefix-Names part (c ∷ s) k in ([], after, h)
  | inr k ↦
      let (before, after, h) = contains-Names part s (rw k at e) in
      (c ∷ before, after, ap (◌∷◌ c) h)
]

-- the filter passes a message exactly if it is not silent
pub silent_path_passes-cases :
    (msg : List ℕ)
    → (IsSilent msg × (silent_path_passes msg ≡ false))
      ⊎ (¬ IsSilent msg × (silent_path_passes msg ≡ true))
unfolding silent_path_passes any
silent_path_passes-cases msg = elim (Bool-cases (contains (codes "/healthz") msg)) [
  | inl k ↦ inl (inl (contains-Names (codes "/healthz") msg k), rw k refl)
  | inr k ↦ elim (Bool-cases (contains (codes "/metrics") msg)) [
    | inl m ↦ inl (inr (contains-Names (codes "/metrics") msg m), rw (k, m) refl)
    | inr m ↦ inr (λ silent. spoken k m silent, rw (k, m) refl)
  ]
]
  where
    spoken :
        contains (codes "/healthz") msg ≡ false
        → contains (codes "/metrics") msg ≡ false
        → IsSilent msg
        → ⊥
    spoken k m (inl (before, after, e)) =
        let k' = rw (e, contains-append (codes "/healthz") before after) at k in absurd (cc k')
    spoken k m (inr (before, after, e)) =
        let m' = rw (e, contains-append (codes "/metrics") before after) at m in absurd (cc m')
