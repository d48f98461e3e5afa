-- ===== src/CrawlEngine/RetryQueue/Laws.antt =====
-- No item is lost or made up by the retry queue (retry_queue.rs).
use mathlib.Core.List.{Perm, perm_append_comm, append_assoc, perm_middle}
use mathlib.Core.List.Perm
use kodegen_tools_citescrape.Base.{
  ℕ, String, ◌≡◌, ◌⊎◌, inl, inr, Option, none, List, [], ◌∷◌, ◌++◌, arith, str_eq, eq_iff,
  Bool-cases, Option-cases, lookup, insert, remove, keys, UniqueKeys, remove_fresh,
  remove-UniqueKeys,
}
use kodegen_tools_citescrape.CrawlEngine.CircuitBreaker.{CircuitBreaker}
use kodegen_tools_citescrape.CrawlEngine.Failure.{CrawlQueue}
use kodegen_tools_citescrape.CrawlEngine.RetryQueue.{
  extract_domain, Items, pending, add, ready_domains, take_domains, drain_ready,
}

-- Every item of the map, domain by domain.
abbrev pub all_items : Items → List CrawlQueue
all_items [] = []
all_items ((domain, xs) ∷ items) = xs ++ all_items items

swap_front : (xs ys zs : List CrawlQueue) → Perm (xs ++ (ys ++ zs)) (ys ++ (xs ++ zs))
swap_front xs ys zs =
    rw (← append_assoc xs ys zs, ← append_assoc ys xs zs)
      (Perm.append_right zs (perm_append_comm xs ys))

module _ (domain k : String) (xs : List CrawlQueue) (items : Items) where
  pending_cases :
      (lookup k items ≡ none)
      → ((pending domain ((k, xs) ∷ items) ≡ xs) × (remove domain ((k, xs) ∷ items) ≡ items))
        ⊎ ((pending domain ((k, xs) ∷ items) ≡ pending domain items)
            × (remove domain ((k, xs) ∷ items) ≡ (k, xs) ∷ remove domain items))
  unfolding lookup remove
  pending_cases fresh = elim (Bool-cases (str_eq k domain)) [
    | inl hit ↦ inl (ground arith, ground (arith, eq_iff k domain, remove_fresh domain items))
    | inr miss ↦ inr (ground arith, ground arith)
  ]

  remove-perm_cons :
      lookup k items ≡ none
      → Perm (all_items items) (pending domain items ++ all_items (remove domain items))
      → Perm
          (all_items ((k, xs) ∷ items))
          (pending domain ((k, xs) ∷ items) ++ all_items (remove domain ((k, xs) ∷ items)))
  remove-perm_cons fresh ih = elim (pending_cases fresh) [
    | inl (p, r) ↦ rw (p, r) (Perm.refl _)
    | inr (p, r) ↦
        rw (p, r)
          (Perm.trans (Perm.append_left xs ih)
            (swap_front xs (pending domain items) (all_items (remove domain items))))
  ]

  pending-insert :
      (ys : List CrawlQueue)
      → (insert domain ys ((k, xs) ∷ items) ≡ (k, ys) ∷ items)
          × (pending domain ((k, xs) ∷ items) ≡ xs)
        ⊎ (insert domain ys ((k, xs) ∷ items) ≡ (k, xs) ∷ insert domain ys items)
          × (pending domain ((k, xs) ∷ items) ≡ pending domain items)
  unfolding lookup insert
  pending-insert ys = elim (Bool-cases (str_eq k domain)) [
    | inl hit ↦ inl (ground arith, ground arith)
    | inr miss ↦ inr (ground arith, ground arith)
  ]

remove-perm :
    (domain : String) (items : Items)
    → UniqueKeys items
    → Perm (all_items items) (pending domain items ++ all_items (remove domain items))
unfolding lookup remove
remove-perm domain [] u = Perm.nil
remove-perm domain ((k, xs) ∷ items) u =
    remove-perm_cons domain k xs items u.0 (remove-perm domain items u.1)

module _ (domain k : String) (xs : List CrawlQueue) (items : Items) (item : CrawlQueue) where
  insert-perm_cons :
      Perm
        (all_items (insert domain (pending domain items ++ item ∷ []) items))
        (item ∷ all_items items)
      → Perm
          (all_items
            (insert domain (pending domain ((k, xs) ∷ items) ++ item ∷ []) ((k, xs) ∷ items)))
          (item ∷ all_items ((k, xs) ∷ items))
  insert-perm_cons ih =
      elim (pending-insert domain k xs items (pending domain ((k, xs) ∷ items) ++ item ∷ [])) [
        | inl (e, p) ↦
            rw (e, p)
              (rw (append_assoc xs (item ∷ []) (all_items items))
                (perm_middle xs (all_items items)))
        | inr (e, p) ↦
            rw (e, p) (Perm.trans (Perm.append_left xs ih) (perm_middle xs (all_items items)))
      ]

insert-perm :
    (domain : String) (item : CrawlQueue) (items : Items)
    → Perm
        (all_items (insert domain (pending domain items ++ item ∷ []) items))
        (item ∷ all_items items)
insert-perm domain item [] = unfold insert lookup in Perm.refl _
insert-perm domain item ((k, xs) ∷ items) =
    insert-perm_cons domain k xs items item (insert-perm domain item items)

take_domains-perm :
    (domains : List String) (items : Items)
    → UniqueKeys items
    → let (ready, rest) = take_domains domains items in
      Perm (all_items items) (ready ++ all_items rest)
unfolding take_domains
take_domains-perm [] items u = Perm.refl _
take_domains-perm (d ∷ ds) items u =
    let ih = take_domains-perm ds (remove d items) (remove-UniqueKeys d items u) in
    Perm.trans (remove-perm d items u) (
      rw
        (append_assoc (pending d items) (take_domains ds (remove d items)).0
          (all_items (take_domains ds (remove d items)).1))
        (Perm.append_left (pending d items) ih))

-- What the queue holds after `add`: the item as well if its URL has a domain, and else no change.
pub add-perm :
    (parse_host : String → Option (Option String)) (items : Items) (item : CrawlQueue)
    → ((extract_domain parse_host item.url ≡ none) × (add parse_host items item ≡ items))
      ⊎ Perm (all_items (add parse_host items item)) (item ∷ all_items items)
unfolding add
add-perm parse_host items item = elim (Option-cases (extract_domain parse_host item.url)) [
  | inl e ↦ inl (e, rw (e, add))
  | inr (d, e) ↦ inr (rw (e, add) (insert-perm d item items))
]

-- A drain loses no item and makes none up: what it returns and what stays are what was there.
pub drain_ready-perm :
    (cb : CircuitBreaker) (now : ℕ) (items : Items)
    → UniqueKeys items
    → let (cb', ready, rest) = drain_ready cb now items in
      Perm (all_items items) (ready ++ all_items rest)
unfolding drain_ready
drain_ready-perm cb now items u = take_domains-perm (ready_domains cb now (keys items)).1 items u
