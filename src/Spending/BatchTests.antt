-- ===== src/Spending/BatchTests.antt =====
-- The batch methods and the views of the whitelist at concrete inputs.
use hos_treasury.Common.{◌↔◌, ◌≡◌, refl, arith, none, some, List, [], ◌∷◌}
use hos_treasury.Near.{World, done}
use hos_treasury.Spending.Types.{WhitelistEntry, Callback}
use hos_treasury.Spending.Contract.{Contract}
use hos_treasury.Spending.Keys.{limit_of}
use hos_treasury.Spending.Whitelist.{
  add_to_whitelist, set_limit, remove_from_whitelist, increase_limit, decrease_limit,
  get_num_whitelisted, get_whitelist_entry, get_whitelist_entries,
}
use hos_treasury.Spending.Treasury.{begin}
use hos_treasury.Spending.Samples.{
  sample, program, fresh, alice, entries, keys, changes, manager_call, world_of, listed,
}
use hos_treasury.Spending.Whitelist.Rounds.{write, erase, increase, decrease, IsBatch}
use hos_treasury.Spending.Whitelist.Additions.{
  overlay, Addable, Settable, add_to_whitelist_iff, limit_of-add_to_whitelist, set_limit_iff,
  limit_of-set_limit,
}
use hos_treasury.Spending.Whitelist.Removals.{
  cut, Removable, remove_from_whitelist_iff, limit_of-remove_from_whitelist,
}
use hos_treasury.Spending.Whitelist.Changes.{
  NotSelf, FitsWith, Fits, Decreasable, amount_for, increase_limit_iff, allowance-increase_limit,
  decrease_limit_iff, allowance-decrease_limit,
}
use hos_treasury.Spending.Whitelist.Pages.{entries_join, entries_complete}
use hos_treasury.Spending.Keys.{allowance}
use hos_treasury.Near.Loops.{run_all}
use hos_treasury.Common.{◌+◌, ◌-◌, length, ◌++◌, min}
use mathlib.Core.List.{Memᴰ}

abbrev lower : List WhitelistEntry
lower = record { account_id = "alice.near"; token_id = none; limit = 9 } ∷ []

abbrev reset : World Contract Callback
reset = world_of (set_limit manager_call lower listed)

abbrev removed : World Contract Callback
removed = world_of (remove_from_whitelist manager_call keys listed)

abbrev higher : World Contract Callback
higher = world_of (increase_limit manager_call changes listed)

abbrev cheaper : World Contract Callback
cheaper = world_of (decrease_limit manager_call changes listed)

changed :
    (limit_of reset.state alice ≡ some 9)
    × (limit_of removed.state alice ≡ none)
    × (limit_of higher.state alice ≡ some 111)
    × (limit_of cheaper.state alice ≡ some 89)
unfolding program
changed = (refl, refl, refl, refl)

listed-Fits : Fits listed.state
unfolding program
listed-Fits key = ground arith

add_to_whitelist_iff_example :
    (add_to_whitelist manager_call entries (begin fresh) ≡ done (tt, listed)) ↔ (
      IsBatch manager_call fresh entries
      × Addable manager_call fresh entries
      × (listed ≡ record (begin fresh) { state = run_all write fresh entries }))
add_to_whitelist_iff_example = add_to_whitelist_iff manager_call entries (begin fresh) listed

limit_of-add_to_whitelist_example :
    limit_of listed.state alice ≡ overlay entries alice (limit_of fresh alice)
unfolding program
limit_of-add_to_whitelist_example =
    limit_of-add_to_whitelist manager_call entries (begin fresh) listed refl alice

set_limit_iff_example : (set_limit manager_call lower listed ≡ done (tt, reset)) ↔ (
    IsBatch manager_call listed.state lower
    × Settable listed.state lower
    × (reset ≡ record listed { state = run_all write listed.state lower }))
set_limit_iff_example = set_limit_iff manager_call lower listed reset

limit_of-set_limit_example :
    limit_of reset.state alice ≡ overlay lower alice (limit_of listed.state alice)
unfolding program
limit_of-set_limit_example = limit_of-set_limit manager_call lower listed reset refl alice

remove_from_whitelist_iff_example :
    (remove_from_whitelist manager_call keys listed ≡ done (tt, removed)) ↔ (
      IsBatch manager_call listed.state keys
      × Removable listed.state keys
      × (removed ≡ record listed { state = run_all erase listed.state keys }))
remove_from_whitelist_iff_example = remove_from_whitelist_iff manager_call keys listed removed

limit_of-remove_from_whitelist_example :
    limit_of removed.state alice ≡ cut keys alice (limit_of listed.state alice)
unfolding program
limit_of-remove_from_whitelist_example =
    limit_of-remove_from_whitelist manager_call keys listed removed refl alice

increase_limit_iff_example : (increase_limit manager_call changes listed ≡ done (tt, higher)) ↔ (
    IsBatch manager_call listed.state changes
    × NotSelf manager_call changes
    × FitsWith listed.state changes
    × (higher ≡ record listed { state = run_all increase listed.state changes }))
increase_limit_iff_example = increase_limit_iff manager_call changes listed higher listed-Fits

allowance-increase_limit_example :
    allowance higher.state alice ≡ allowance listed.state alice + amount_for changes alice
unfolding program
allowance-increase_limit_example =
    allowance-increase_limit manager_call changes listed higher refl alice

decrease_limit_iff_example : (decrease_limit manager_call changes listed ≡ done (tt, cheaper)) ↔ (
    IsBatch manager_call listed.state changes
    × Decreasable listed.state changes
    × (cheaper ≡ record listed { state = run_all decrease listed.state changes }))
decrease_limit_iff_example = decrease_limit_iff manager_call changes listed cheaper

allowance-decrease_limit_example :
    allowance cheaper.state alice ≡ allowance listed.state alice - amount_for changes alice
unfolding program
allowance-decrease_limit_example =
    allowance-decrease_limit manager_call changes listed cheaper refl alice

entries_join_example :
    (xs : List WhitelistEntry) × (ys : List WhitelistEntry) × (zs : List WhitelistEntry)
    × (get_whitelist_entries (some 0) (some 1) listed ≡ done (xs, listed))
    × (get_whitelist_entries (some (0 + 1)) (some 1) listed ≡ done (ys, listed))
    × (get_whitelist_entries (some 0) (some (1 + 1)) listed ≡ done (zs, listed))
    × (xs ++ ys ≡ zs)
    × (length zs ≡ min (1 + 1) (get_num_whitelisted listed.state - 0))
    × ((e : WhitelistEntry)
        → Memᴰ e zs
        → get_whitelist_entry listed.state e.account_id e.token_id ≡ some e)
entries_join_example = entries_join 0 1 1 listed (omega arith) (omega arith)

entries_complete_example :
    (es : List WhitelistEntry) × (get_whitelist_entries none none listed ≡ done (es, listed))
    × (length es ≡ get_num_whitelisted listed.state)
    × ((e : WhitelistEntry)
        → Memᴰ e es ↔ (get_whitelist_entry listed.state e.account_id e.token_id ≡ some e))
unfolding program
entries_complete_example = entries_complete listed (omega arith)
