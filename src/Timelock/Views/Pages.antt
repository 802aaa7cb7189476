-- ===== src/Timelock/Views/Pages.antt =====
-- The views of the queue: pages, the count and the single request agree.
use mathlib.Core.List.{Memᴰ, map-append}
use hos_treasury.Common.{
  ℕ, ◌+◌, ◌≤◌, ◌≡◌, ◌↔◌, sym, ap, ◌∙◌, arith, none, some, List, [], ◌∷◌, ◌++◌, map, length, take,
  length-take, length-drop, take-mem, drop-mem, min, ◌-◌, drop, u32_max, take-join, drop-drop,
  take_all, length-map, le→leb,
}
use hos_treasury.Near.{done}
use hos_treasury.Timelock.Types.{Request, RequestOutput, Sdk}
use hos_treasury.Timelock.Requests.{new_output}
use hos_treasury.Timelock.Contract.{Contract}
use hos_treasury.Timelock.Views.{get_num_requests, get_request, get_requests, to_output}
use hos_treasury.Timelock.Scheduling.{W}

-- The entry of the queue that an output shows.
abbrev shown : RequestOutput → ℕ × Request
shown o = (
  o.request_id,
  record {
    receiver_id = o.receiver_id;
    actions = o.actions;
    funder_id = o.funder_id;
    execute_after = o.execute_after;
    approve = o.approve;
    predecessor_id = o.predecessor_id;
  },
)

module _ ⦃sdk : Sdk⦄ where
  open sdk use {request_map}

  -- The requests from one position on, at most so many.
  abbrev request_page : Contract → ℕ → ℕ → List RequestOutput
  request_page self from count =
      map to_output (take count (drop from (request_map.iter self.requests)))

  requests_at :
      (from count : ℕ) (w : W)
      → from ≤ u32_max
      → count ≤ u32_max
      → get_requests (some from) (some count) w ≡ done (request_page w.state from count, w)
  unfolding get_requests
  requests_at from count w hf hc = ground (arith, le→leb from u32_max, le→leb count u32_max)

  shown_of_mem :
      (l : List (ℕ × Request)) (o : RequestOutput) → Memᴰ o (map to_output l) → Memᴰ (shown o) l
  unfolding new_output
  shown_of_mem [] o h = elim h [ ]
  shown_of_mem (x ∷ l) o (Memᴰ.head same) = Memᴰ.head (ap shown same)
  shown_of_mem (x ∷ l) o (Memᴰ.tail h) = Memᴰ.tail (shown_of_mem l o h)

  mem_of_shown :
      (l : List (ℕ × Request)) (o : RequestOutput) → Memᴰ (shown o) l → Memᴰ o (map to_output l)
  unfolding new_output
  mem_of_shown [] o h = elim h [ ]
  mem_of_shown (x ∷ l) o (Memᴰ.head same) = Memᴰ.head (ap to_output same)
  mem_of_shown (x ∷ l) o (Memᴰ.tail h) = Memᴰ.tail (mem_of_shown l o h)

  request_found_iff :
      (self : Contract) (o : RequestOutput)
      → (get_request self o.request_id ≡ some o)
        ↔ (request_map.get self.requests o.request_id ≡ some (shown o).1)
  unfolding get_request new_output
  request_found_iff self o = ground arith

  -- Where there are no more requests than a `u32` counts, the listing with no bounds has an output
  -- for each pending request, as many as `get_num_requests` says, and lists an output exactly when
  -- `get_request` returns it for its id.
  pub requests_complete :
      (w : W)
      → get_num_requests w.state ≤ u32_max
      → (os : List RequestOutput) × (get_requests none none w ≡ done (os, w))
        × (length os ≡ get_num_requests w.state)
        × ((o : RequestOutput) → Memᴰ o os ↔ (get_request w.state o.request_id ≡ some o))
  unfolding get_requests get_num_requests
  requests_complete w small =
      let all = request_map.iter w.state.requests in
      let few : length all ≤ u32_max = omega (arith, request_map.len-iter w.state.requests) in
      (
        map to_output all,
        ap (λ l. done (map to_output l, w)) (take_all u32_max all few),
        length-map to_output all ∙ sym (request_map.len-iter w.state.requests),
        λ o. (
          λ h.
              (request_found_iff w.state o).1
                ((request_map.mem-iter _ _ _).0 (shown_of_mem all o h)),
          λ h.
              mem_of_shown all o
                ((request_map.mem-iter _ _ _).1 ((request_found_iff w.state o).0 h)),
        ),
      )

  page-length :
      (self : Contract) (from count : ℕ)
      → length (request_page self from count) ≡ min count (get_num_requests self - from)
  unfolding get_num_requests
  page-length self from count =
      let all = request_map.iter self.requests in
      omega (
        arith,
        length-map to_output (take count (drop from all)),
        length-take count (drop from all),
        length-drop from all,
        request_map.len-iter self.requests,
      )

  page-found :
      (self : Contract) (from count : ℕ) (o : RequestOutput)
      → Memᴰ o (request_page self from count)
      → get_request self o.request_id ≡ some o
  page-found self from count o h =
      let all = request_map.iter self.requests in
      let mine = shown_of_mem (take count (drop from all)) o h in
      (request_found_iff self o).1 (
        (request_map.mem-iter _ _ _).0
          (drop-mem from all _ (take-mem count (drop from all) _ mine)))

  -- Positions and counts up to the largest `u32` always get an answer. Two pages that follow one
  -- another are the longer page, which has as many requests as there are from its position on, its count
  -- at most, and has only what the view of a single request returns.
  pub requests_join :
      (from n m : ℕ) (w : W)
      → from + n ≤ u32_max
      → n + m ≤ u32_max
      → (xs : List RequestOutput) × (ys : List RequestOutput) × (zs : List RequestOutput)
        × (get_requests (some from) (some n) w ≡ done (xs, w))
        × (get_requests (some (from + n)) (some m) w ≡ done (ys, w))
        × (get_requests (some from) (some (n + m)) w ≡ done (zs, w))
        × (xs ++ ys ≡ zs)
        × (length zs ≡ min (n + m) (get_num_requests w.state - from))
        × ((e : RequestOutput) → Memᴰ e zs → get_request w.state e.request_id ≡ some e)
  requests_join from n m w hf hn =
      let all = request_map.iter w.state.requests in
      (
        request_page w.state from n,
        request_page w.state (from + n) m,
        request_page w.state from (n + m),
        requests_at from n w (omega arith) (omega arith),
        requests_at (from + n) m w hf (omega arith),
        requests_at from (n + m) w (omega arith) hn,
        sym (map-append to_output (take n (drop from all)) (take m (drop (from + n) all)))
            ∙ ap (map to_output) (
                ap (λ l. take n (drop from all) ++ take m l) (sym (drop-drop from n all))
                ∙ take-join n m (drop from all)),
        page-length w.state from (n + m),
        page-found w.state from (n + m),
      )
