-- ===== src/CrawlEngine/RetryQueue/Every.antt =====
-- Facts that hold of every item of the retry queue (retry_queue.rs).
use kodegen_tools_citescrape.Base.{
  String, inl, inr, Option, Option-cases, List, [], ◌∷◌, ◌++◌, arith, All, All-append, All-left,
  All-right, lookup, insert, remove,
}
use kodegen_tools_citescrape.CrawlEngine.Failure.{CrawlQueue}
use kodegen_tools_citescrape.CrawlEngine.RetryQueue.{
  Items, pending, extract_domain, add, take_domains,
}
use kodegen_tools_citescrape.CrawlEngine.RetryQueue.Laws.{all_items}

module _ (P : CrawlQueue → Type 0) where
  pub All-remove :
      (d : String) (items : Items) → All P (all_items items) → All P (all_items (remove d items))
  unfolding remove
  All-remove d [] h = tt
  All-remove d ((k, xs) ∷ items) h = ground (
    arith,
    All-remove d items (All-right P xs (all_items items) h),
    All-append P xs (all_items (remove d items)) (All-left P xs (all_items items) h),
  )

  pub All-pending : (d : String) (items : Items) → All P (all_items items) → All P (pending d items)
  unfolding lookup
  All-pending d [] h = tt
  All-pending d ((k, xs) ∷ items) h = ground (
    arith,
    All-pending d items (All-right P xs (all_items items) h),
    All-left P xs (all_items items) h,
  )

  pub All-insert :
      (d : String) (xs : List CrawlQueue) (items : Items)
      → All P xs
      → All P (all_items items)
      → All P (all_items (insert d xs items))
  unfolding insert
  All-insert d xs [] h k = All-append P xs [] h tt
  All-insert d xs ((j, ys) ∷ items) h k = ground (
    arith,
    All-append P xs (all_items items) h (All-right P ys (all_items items) k),
    All-append P ys (all_items (insert d xs items)) (All-left P ys (all_items items) k)
        (All-insert d xs items h (All-right P ys (all_items items) k)),
  )

  pub All-take_domains :
      (ds : List String) (items : Items)
      → All P (all_items items)
      → All P (take_domains ds items).0 × All P (all_items (take_domains ds items).1)
  unfolding take_domains
  All-take_domains [] items h = (tt, h)
  All-take_domains (d ∷ ds) items h =
      let (ready, rest) = All-take_domains ds (remove d items) (All-remove d items h) in
      (All-append P (pending d items) _ (All-pending d items h) ready, rest)

  pub All-add :
      (parse_host : String → Option (Option String)) (items : Items) (item : CrawlQueue)
      → P item
      → All P (all_items items)
      → All P (all_items (add parse_host items item))
  unfolding add
  All-add parse_host items item h k = elim (Option-cases (extract_domain parse_host item.url)) [
    | inl e ↦ rw (e, add) k
    | inr (d, e) ↦
        rw (e, add)
          (All-insert d (pending d items ++ item ∷ []) items
            (All-append P (pending d items) (item ∷ []) (All-pending d items k) (h, tt)) k)
  ]
