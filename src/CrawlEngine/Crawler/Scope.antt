-- ===== src/CrawlEngine/Crawler/Scope.antt =====
-- Which URLs the crawl follows (crawler.rs).
use mathlib.Core.List.{append_assoc}
use kodegen_tools_citescrape.Base.{
  ℕ, zero, suc, ◌≡◌, refl, sym, ap, subst, ◌∙◌, ◌⊎◌, inl, inr, ◌↔◌, Bool, true, false, ◌&&◌, Option,
  none, some, List, [], ◌∷◌, ◌++◌, All, arith, codes, length, replicate, starts_with, contains,
  same_text, same_text-eq, same_text_refl, ◌==◌, Bool-cases,
}
use kodegen_tools_citescrape.ContentSaver.Htmd.Strip.{trim_end_matches}
use kodegen_tools_citescrape.ContentSaver.Htmd.Strip.TrimEnd.{
  trim_end-append_all, trim_end-append, trim_end-again,
}
use kodegen_tools_citescrape.CrawlEngine.Crawler.{
  ImUrl, CrawlConfig, host_of, domain_allowed, norm_path, path_allowed, any_matches, any_contained,
  patterns_of, excluded, visit_parsed, both_parsed, should_visit_url,
}

starts_with-split :
    (text pattern_ : List ℕ)
    → starts_with text pattern_ ≡ true
    → (rest : List ℕ) × (text ≡ pattern_ ++ rest)
unfolding starts_with
starts_with-split text [] e = (text, refl)
starts_with-split [] (p ∷ ps) e = cc
starts_with-split (c ∷ cs) (p ∷ ps) e =
    let first : c ≡ p = ground arith in
    let (rest, split) = starts_with-split cs ps (ground arith) in (rest, cc)

starts_with-under : (p t q : List ℕ) → starts_with t q ≡ true → starts_with (p ++ t) (p ++ q) ≡ true
unfolding starts_with
starts_with-under [] t q e = e
starts_with-under (c ∷ cs) t q e = ground (arith, starts_with-under cs t q e)

empty_of : (l : List ℕ) → length l ≡ 0 → l ≡ []
empty_of [] e = refl
empty_of (d ∷ ds) e = absurd (omega arith)

-- A path is its normal form and slashes.
norm_path-split : (path : List ℕ) → (k : ℕ) × (path ≡ norm_path path ++ replicate k 47)
unfolding norm_path trim_end_matches
norm_path-split [] = (0, refl)
norm_path-split (c ∷ cs) = elim (Bool-cases ((c == 47) && (length (norm_path cs) == 0))) [
  | inl slashes ↦
      let (k, split) = norm_path-split cs in
      let first : c ≡ 47 = ground arith in
      let none_left : norm_path cs ≡ [] = empty_of (norm_path cs) (ground arith) in
      rw slashes (suc k, cc (ap (λ l. l ++ replicate k 47) none_left))
  | inr other ↦ let (k, split) = norm_path-split cs in rw other (k, ap (c ∷◌) split)
]

-- Nothing, or a text that starts with a slash.
abbrev pub Opens : List ℕ → Type 0
Opens [] = Unit {0}
Opens (c ∷ cs) = c ≡ 47

-- The path lies under the start path, given without the slashes at its end; all do under a root.
abbrev pub InScope : List ℕ → List ℕ → Type 0
InScope start_path url_path =
    (norm_path start_path ≡ [])
    ⊎ ((rest : List ℕ) × (url_path ≡ norm_path start_path ++ rest) × Opens rest)

slashes-Opens : (k : ℕ) → Opens (replicate k 47)
slashes-Opens zero = tt
slashes-Opens (suc k) = refl

slash_alone : norm_path (codes "/") ≡ []
unfolding norm_path trim_end_matches
slash_alone = refl

start_rest : (r : List ℕ) → Opens r → (norm_path r ≡ []) ⊎ ((ds : List ℕ) × (norm_path r ≡ 47 ∷ ds))
unfolding norm_path trim_end_matches
start_rest [] o = inl refl
start_rest (c ∷ cs) o = elim (Bool-cases (length (norm_path cs) == 0)) [
  | inl short ↦ inl (rw (o, short) refl)
  | inr long ↦ inr (norm_path cs, rw (o, long) refl)
]

path_allowed-InScope : (start url : List ℕ) → path_allowed start url ≡ true → InScope start url
unfolding path_allowed norm_path
path_allowed-InScope start url e =
    let (k, split) = norm_path-split url in
    elim (Bool-cases (length (norm_path start) == 0)) [
      | inl root ↦ inl (empty_of (norm_path start) (ground arith))
      | inr deep ↦ elim (Bool-cases (same_text (norm_path start) (codes "/"))) [
        | inl slash ↦
            let s = same_text-eq (norm_path start) (codes "/") slash in
            inl (sym (trim_end-again (λ c. c == 47) start) ∙ ap norm_path s ∙ slash_alone)
        | inr no_slash ↦ elim (Bool-cases (same_text (norm_path url) (norm_path start))) [
          | inl same ↦
              let s = same_text-eq (norm_path url) (norm_path start) same in
              inr (replicate k 47, split ∙ ap (λ l. l ++ replicate k 47) s, slashes-Opens k)
          | inr other ↦
              let (r, below) =
                starts_with-split (norm_path url) (norm_path start ++ codes "/") (ground arith) in
              inr (
                47 ∷ r ++ replicate k 47,
                split
                    ∙ ap (λ l. l ++ replicate k 47) below
                    ∙ append_assoc (norm_path start ++ codes "/") r (replicate k 47)
                    ∙ append_assoc (norm_path start) (codes "/") (r ++ replicate k 47),
                refl,
              )
        ]
      ]
    ]

InScope-path_allowed : (start url : List ℕ) → InScope start url → path_allowed start url ≡ true
unfolding path_allowed starts_with norm_path
InScope-path_allowed start url (inl root) = rw root refl
InScope-path_allowed start url (inr (rest, split, o)) = elim (start_rest rest o) [
  | inl slashes ↦
      let s : norm_path url ≡ norm_path start =
        ap norm_path split
        ∙ trim_end-append_all (λ c. c == 47) (norm_path start) rest slashes
        ∙ trim_end-again (λ c. c == 47) start in
      rw (s, same_text_refl (norm_path start)) (ground arith)
  | inr (ds, below) ↦
      let s : norm_path url ≡ norm_path start ++ 47 ∷ ds =
        ap norm_path split ∙ trim_end-append (λ c. c == 47) (norm_path start) rest 47 ds below in
      let under = starts_with-under (norm_path start) (47 ∷ ds) (codes "/") refl in
      rw (s, under) (ground arith)
]

-- No compiled pattern matches the URL, and none of the patterns occurs in it.
abbrev pub NotExcluded : CrawlConfig → List ℕ → Type 0
NotExcluded config url =
    All (λ regex. regex url ≡ false) config.excluded_patterns_compiled
    × All (λ p. contains url p ≡ false) (patterns_of config.excluded_patterns)

any_matches_iff :
    (regexes : List (List ℕ → Bool)) (url : List ℕ)
    → (any_matches regexes url ≡ false) ↔ All (λ regex. regex url ≡ false) regexes
any_matches_iff [] url = (λ e. tt, λ a. refl)
any_matches_iff (regex ∷ regexes) url =
    let (there, back) = any_matches_iff regexes url in
    (λ e. (ground (arith, e), there (ground (arith, e))), λ a. rw (a.0, back a.1) refl)

any_contained_iff :
    (patterns : List (List ℕ)) (url : List ℕ)
    → (any_contained patterns url ≡ false) ↔ All (λ p. contains url p ≡ false) patterns
any_contained_iff [] url = (λ e. tt, λ a. refl)
any_contained_iff (p ∷ patterns) url =
    let (there, back) = any_contained_iff patterns url in
    (λ e. (ground (arith, e), there (ground (arith, e))), λ a. rw (a.0, back a.1) refl)

excluded_iff :
    (config : CrawlConfig) (url : List ℕ) → (excluded config url ≡ false) ↔ NotExcluded config url
unfolding excluded
excluded_iff config url =
    let (there, back) = any_matches_iff config.excluded_patterns_compiled url in
    let (there', back') = any_contained_iff (patterns_of config.excluded_patterns) url in
    (
      λ (e : excluded config url ≡ false). (there (ground (arith, e)), there' (ground (arith, e))),
      λ (a : NotExcluded config url). rw (back a.0, back' a.1) refl,
    )

-- What a URL must be to be followed from the start URL.
pub record Visited (config : CrawlConfig) (url : List ℕ) (u s : ImUrl) : Type 0 where
  pub same_scheme : u.scheme ≡ s.scheme
  pub same_host : host_of u ≡ host_of s
  pub allowed : domain_allowed config.allowed_domains (host_of s) ≡ true
  pub in_scope : InScope s.path u.path
  pub not_excluded : NotExcluded config url

visit_parsed_iff :
    (config : CrawlConfig) (url : List ℕ) (u s : ImUrl)
    → (visit_parsed config url u s ≡ true) ↔ Visited config url u s
unfolding visit_parsed
visit_parsed_iff config url u s = (
  λ (e : visit_parsed config url u s ≡ true).
      let hosts = same_text-eq (host_of u) (host_of s) (ground (arith, e)) in
      record {
        same_scheme = same_text-eq u.scheme s.scheme (ground (arith, e));
        same_host = hosts;
        allowed =
            subst (λ h. domain_allowed config.allowed_domains h ≡ true) hosts (ground (arith, e));
        in_scope = path_allowed-InScope s.path u.path (ground (arith, e));
        not_excluded = (excluded_iff config url).0 (ground (arith, e));
      },
  λ (v : Visited config url u s).
      rw
        (
          v.same_scheme,
          v.same_host,
          same_text_refl s.scheme,
          same_text_refl (host_of s),
          v.allowed,
          InScope-path_allowed s.path u.path v.in_scope,
          (excluded_iff config url).1 v.not_excluded,
        )
        refl,
)

both_parsed_iff :
    (config : CrawlConfig) (url : List ℕ) (o p : Option ImUrl)
    → (both_parsed config url o p ≡ true)
      ↔ ((u : ImUrl) × (s : ImUrl) × (o ≡ some u) × (p ≡ some s) × Visited config url u s)
unfolding both_parsed
both_parsed_iff config url none p = (λ e. cc, λ (u, s, e, e', v). cc)
both_parsed_iff config url (some u) none = (λ e. cc, λ (u', s, e, e', v). cc)
both_parsed_iff config url (some u) (some s) = (
  λ (e : visit_parsed config url u s ≡ true).
      (u, s, refl, refl, (visit_parsed_iff config url u s).0 e),
  λ (u', s', e, e', v).
      let same : u ≡ u' = cc in
      let same' : s ≡ s' = cc in rw (same, same') ((visit_parsed_iff config url u' s').1 v),
)

-- A URL is followed exactly if it and the start URL parse, with the same scheme and host, that host
-- passes the list of allowed domains, the path of the URL is that of the start URL, without the
-- slashes at its end, followed by nothing or by a slash and anything (any path under a root), and
-- no excluded pattern matches or occurs in the URL.
pub should_visit_url_iff :
    (parse : List ℕ → Option ImUrl) (config : CrawlConfig) (url : List ℕ)
    → (should_visit_url parse config url ≡ true) ↔ (
        (u : ImUrl) × (s : ImUrl) × (parse url ≡ some u)
        × (parse config.start_url ≡ some s)
        × Visited config url u s)
unfolding should_visit_url
should_visit_url_iff parse config url =
    both_parsed_iff config url (parse url) (parse config.start_url)
