-- ===== src/Spending/Whitelist/Pages.antt =====
-- The views of the whitelist: pages, the count and the single entry agree.
use mathlib.Core.List.{Memᴰ, map-append}
use hos_treasury.Common.{
  ℕ, ◌+◌, ◌≤◌, ◌≡◌, ◌↔◌, sym, ap, ◌∙◌, arith, none, some, List, [], ◌∷◌, ◌++◌, map, length, take,
  length-take, length-drop, take-mem, drop-mem, min, ◌-◌, drop, u32_max, take-join, drop-drop,
  take_all, length-map, le→leb,
}
use hos_treasury.Near.{done}
use hos_treasury.Spending.Types.{WhitelistKey, WhitelistEntry, Sdk}
use hos_treasury.Spending.Contract.{Contract}
use hos_treasury.Spending.Whitelist.{
  get_num_whitelisted, get_whitelist_entry, get_whitelist_entries, to_entry,
}
use hos_treasury.Spending.Whitelist.Rounds.{W}

module _ ⦃sdk : Sdk⦄ where
  open sdk use {whitelist_map}

  -- The entries from one position on, at most so many.
  abbrev page : Contract → ℕ → ℕ → List WhitelistEntry
  page self from count = map to_entry (take count (drop from (whitelist_map.iter self.whitelist)))

  entries_lem :
      (from count : ℕ) (w : W)
      → from ≤ u32_max
      → count ≤ u32_max
      → get_whitelist_entries (some from) (some count) w ≡ done (page w.state from count, w)
  unfolding get_whitelist_entries
  entries_lem from count w hf hc = ground (arith, le→leb from u32_max, le→leb count u32_max)

  page-append :
      (self : Contract) (from n m : ℕ)
      → page self from n ++ page self (from + n) m ≡ page self from (n + m)
  page-append self from n m =
      let all = whitelist_map.iter self.whitelist in
      sym (map-append to_entry (take n (drop from all)) (take m (drop (from + n) all)))
      ∙ ap (map to_entry) (
          ap (λ l. take n (drop from all) ++ take m l) (sym (drop-drop from n all))
          ∙ take-join n m (drop from all))

  entry_of_mem :
      (l : List (WhitelistKey × ℕ)) (e : WhitelistEntry)
      → Memᴰ e (map to_entry l)
      → Memᴰ ((e.account_id, e.token_id), e.limit) l
  entry_of_mem [] e h = elim h [ ]
  entry_of_mem (x ∷ l) e (Memᴰ.head same) =
      Memᴰ.head (ap (λ f. ((f.account_id, f.token_id), f.limit)) same)
  entry_of_mem (x ∷ l) e (Memᴰ.tail h) = Memᴰ.tail (entry_of_mem l e h)

  mem_of_entry :
      (l : List (WhitelistKey × ℕ)) (e : WhitelistEntry)
      → Memᴰ ((e.account_id, e.token_id), e.limit) l
      → Memᴰ e (map to_entry l)
  mem_of_entry [] e h = elim h [ ]
  mem_of_entry (x ∷ l) e (Memᴰ.head same) = Memᴰ.head (ap to_entry same)
  mem_of_entry (x ∷ l) e (Memᴰ.tail h) = Memᴰ.tail (mem_of_entry l e h)

  found_iff :
      (self : Contract) (e : WhitelistEntry)
      → (get_whitelist_entry self e.account_id e.token_id ≡ some e)
        ↔ (whitelist_map.get self.whitelist (e.account_id, e.token_id) ≡ some e.limit)
  unfolding get_whitelist_entry
  found_iff self e = ground arith

  -- Where there are no more entries than a `u32` counts, the listing with no bounds has an entry for
  -- each whitelisted key, as many as `get_num_whitelisted` says, and lists an entry exactly when
  -- `get_whitelist_entry` returns it.
  pub entries_complete :
      (w : W)
      → get_num_whitelisted w.state ≤ u32_max
      → (es : List WhitelistEntry) × (get_whitelist_entries none none w ≡ done (es, w))
        × (length es ≡ get_num_whitelisted w.state)
        × ((e : WhitelistEntry)
            → Memᴰ e es ↔ (get_whitelist_entry w.state e.account_id e.token_id ≡ some e))
  unfolding get_whitelist_entries get_num_whitelisted
  entries_complete w small =
      let all = whitelist_map.iter w.state.whitelist in
      let few : length all ≤ u32_max = omega (arith, whitelist_map.len-iter w.state.whitelist) in
      (
        map to_entry all,
        ap (λ l. done (map to_entry l, w)) (take_all u32_max all few),
        length-map to_entry all ∙ sym (whitelist_map.len-iter w.state.whitelist),
        λ e. (
          λ h. (found_iff w.state e).1 ((whitelist_map.mem-iter _ _ _).0 (entry_of_mem all e h)),
          λ h. mem_of_entry all e ((whitelist_map.mem-iter _ _ _).1 ((found_iff w.state e).0 h)),
        ),
      )

  page-length :
      (self : Contract) (from count : ℕ)
      → length (page self from count) ≡ min count (get_num_whitelisted self - from)
  unfolding get_num_whitelisted
  page-length self from count =
      let all = whitelist_map.iter self.whitelist in
      omega (
        arith,
        length-map to_entry (take count (drop from all)),
        length-take count (drop from all),
        length-drop from all,
        whitelist_map.len-iter self.whitelist,
      )

  page-found :
      (self : Contract) (from count : ℕ) (e : WhitelistEntry)
      → Memᴰ e (page self from count)
      → get_whitelist_entry self e.account_id e.token_id ≡ some e
  page-found self from count e h =
      let all = whitelist_map.iter self.whitelist in
      let mine = entry_of_mem (take count (drop from all)) e h in
      (found_iff self e).1 (
        (whitelist_map.mem-iter _ _ _).0
          (drop-mem from all _ (take-mem count (drop from all) _ mine)))

  -- Positions and counts up to the largest `u32` always get an answer. Two pages that follow one
  -- another are the longer page, which has as many entries as there are from its position on, its count
  -- at most, and has only what the view of a single entry returns.
  pub entries_join :
      (from n m : ℕ) (w : W)
      → from + n ≤ u32_max
      → n + m ≤ u32_max
      → (xs : List WhitelistEntry) × (ys : List WhitelistEntry) × (zs : List WhitelistEntry)
        × (get_whitelist_entries (some from) (some n) w ≡ done (xs, w))
        × (get_whitelist_entries (some (from + n)) (some m) w ≡ done (ys, w))
        × (get_whitelist_entries (some from) (some (n + m)) w ≡ done (zs, w))
        × (xs ++ ys ≡ zs)
        × (length zs ≡ min (n + m) (get_num_whitelisted w.state - from))
        × ((e : WhitelistEntry)
            → Memᴰ e zs
            → get_whitelist_entry w.state e.account_id e.token_id ≡ some e)
  entries_join from n m w hf hn = (
    page w.state from n,
    page w.state (from + n) m,
    page w.state from (n + m),
    entries_lem from n w (omega arith) (omega arith),
    entries_lem (from + n) m w hf (omega arith),
    entries_lem from (n + m) w (omega arith) hn,
    page-append w.state from n m,
    page-length w.state from (n + m),
    page-found w.state from (n + m),
  )
