-- ===== src/InlineCss/DomainQueue/Keys.antt =====
-- Which URLs share a cache key (domain_queue.rs, `normalize_url_for_cache`).
use kodegen_tools_citescrape.Base.{
  ℕ, String, ◌≡◌, refl, sym, ap, subst, ◌∙◌, inl, inr, true, false, ◌&&◌, Option, none, some, List,
  [], ◌∷◌, ◌++◌, arith, length, length-append, ltb, ◌==◌, if◌then◌else◌, Bool-cases,
}
use kodegen_tools_citescrape.InlineCss.DomainQueue.{
  Url, trim_end_slashes, ends_with_slash, default_port, normalize,
}

-- The trimmed path has no slash at its end.
ends_with_slash-trim : (path : List ℕ) → ends_with_slash (trim_end_slashes path) ≡ false
unfolding trim_end_slashes ends_with_slash
ends_with_slash-trim [] = refl
ends_with_slash-trim (c ∷ cs) = by (trim_end_slashes cs) (ends_with_slash-trim cs)
  where
    by :
        (rest : List ℕ)
        → ends_with_slash rest ≡ false
        → ends_with_slash (if (c == 47) && (length rest == 0) then [] else c ∷ rest) ≡ false
    by [] e = ground arith
    by (d ∷ ds) e = ground arith

trim_fixed : (path : List ℕ) → ends_with_slash path ≡ false → trim_end_slashes path ≡ path
unfolding trim_end_slashes ends_with_slash
trim_fixed [] e = refl
trim_fixed (c ∷ []) e = ground arith
trim_fixed (c ∷ d ∷ cs) e = rw (trim_fixed (d ∷ cs) e) (ground arith)

trim_slash : (path : List ℕ) → trim_end_slashes (path ++ 47 ∷ []) ≡ trim_end_slashes path
unfolding trim_end_slashes
trim_slash [] = refl
trim_slash (c ∷ cs) = rw (trim_slash cs) refl

ends_slash : (c : ℕ) (cs : List ℕ) → ends_with_slash ((c ∷ cs) ++ 47 ∷ []) ≡ true
unfolding ends_with_slash
ends_slash c [] = refl
ends_slash c (d ∷ cs) = ends_slash d cs

default_port_twice :
    (scheme : String) (port : Option ℕ)
    → default_port scheme (default_port scheme port) ≡ default_port scheme port
unfolding default_port
default_port_twice scheme none = refl
default_port_twice scheme (some port) = ground arith

-- Setting a path, as the crate url documents it for http and https: the empty path becomes the
-- root, and a path that starts with a slash is taken as it is.
pub record SetsPaths (set_path : List ℕ → List ℕ) : Type 0 where
  pub root : set_path [] ≡ 47 ∷ []
  pub rooted : (cs : List ℕ) → set_path (47 ∷ cs) ≡ 47 ∷ cs

set_trimmed :
    (set_path : List ℕ → List ℕ) (cs : List ℕ)
    → SetsPaths set_path
    → (ltb 1 (length (set_path (trim_end_slashes (47 ∷ cs))))
        && ends_with_slash (set_path (trim_end_slashes (47 ∷ cs))))
      ≡ false
unfolding trim_end_slashes ends_with_slash
set_trimmed set_path cs sets =
    ground (arith, sets.root, sets.rooted (trim_end_slashes cs), ends_with_slash-trim (47 ∷ cs))

normal_path : (List ℕ → List ℕ) → List ℕ → List ℕ
normal_path set_path path =
    if ltb 1 (length path) && ends_with_slash path then set_path (trim_end_slashes path) else path

normal_path_twice :
    (set_path : List ℕ → List ℕ) (path cs : List ℕ)
    → SetsPaths set_path
    → path ≡ 47 ∷ cs
    → normal_path set_path (normal_path set_path path) ≡ normal_path set_path path
unfolding normal_path
normal_path_twice set_path path cs sets e =
    let again = subst Stays (sym e) (set_trimmed set_path cs sets) in
    elim (Bool-cases (ltb 1 (length path) && ends_with_slash path)) [
      | inl trims ↦ rw (trims, again) refl
      | inr keeps ↦ rw (keeps, keeps) refl
    ]
  where
    Stays : List ℕ → Type 0
    Stays p =
        (ltb 1 (length (set_path (trim_end_slashes p)))
          && ends_with_slash (set_path (trim_end_slashes p)))
        ≡ false

normal_path_slash :
    (set_path : List ℕ → List ℕ) (c : ℕ) (cs : List ℕ)
    → SetsPaths set_path
    → ends_with_slash (47 ∷ c ∷ cs) ≡ false
    → normal_path set_path (47 ∷ c ∷ cs ++ 47 ∷ []) ≡ normal_path set_path (47 ∷ c ∷ cs)
unfolding normal_path
normal_path_slash set_path c cs sets no_slash =
    let long : ltb 1 (length (47 ∷ c ∷ cs ++ 47 ∷ [])) ≡ true =
      ground (arith, length-append cs (47 ∷ [])) in
    rw (long, ends_slash 47 (c ∷ cs), no_slash)
      (ap set_path (trim_slash (47 ∷ c ∷ cs) ∙ trim_fixed (47 ∷ c ∷ cs) no_slash)
        ∙ sets.rooted (c ∷ cs)
        ∙ ground arith)

-- For a URL whose path starts with a slash, normalizing it a second time changes nothing.
pub normalize_twice :
    {R : Type 0} (set_path : List ℕ → List ℕ) (u : Url R) (cs : List ℕ)
    → SetsPaths set_path
    → u.path ≡ 47 ∷ cs
    → normalize set_path (normalize set_path u) ≡ normalize set_path u
unfolding normalize normal_path
normalize_twice set_path u cs sets e =
    ap (λ p. record u { port = p; path = normal_path set_path (normal_path set_path u.path) })
      (default_port_twice u.scheme u.port)
    ∙ ap (λ p. record u { port = default_port u.scheme u.port; path = p })
        (normal_path_twice set_path u.path cs sets e)

-- A URL with a slash at the end of its path and one without it have the same normal form, where
-- the path without it starts with a slash, is not the root and does not end with a slash.
pub normalize_slash :
    {R : Type 0} (set_path : List ℕ → List ℕ) (u : Url R) (c : ℕ) (cs : List ℕ)
    → SetsPaths set_path
    → ends_with_slash (47 ∷ c ∷ cs) ≡ false
    → normalize set_path (record u { path = 47 ∷ c ∷ cs ++ 47 ∷ [] })
      ≡ normalize set_path (record u { path = 47 ∷ c ∷ cs })
unfolding normalize normal_path
normalize_slash set_path u c cs sets no_slash =
    ap (λ p. record u { port = default_port u.scheme u.port; path = p })
      (normal_path_slash set_path c cs sets no_slash)
